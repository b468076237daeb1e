-- ===== src/Systemd/EnvFile/RoundTrip.antt =====
-- internal/systemd/envfile.go: `ParseEnv` on the file that `FormatEnv` writes.
use omnistat.Prelude.{
  ℕ, suc, true, false, ltb, Bytes, bytes_eq, bytes_eq_iff, bytes_lt, bytes_Eq, Map, [], ◌∷◌, ◌++◌,
  List, lookup, insert, sort, lookup-insert, ◌≡◌, refl, sym, ap, ◌∙◌, arith, All, if◌then◌else◌,
  some, none, count_if, count_if-sort, map, All-sort,
}
use omnistat.Settle.{ok}
use omnistat.Runes.Trim.{trim_blanks, trim_return}
use omnistat.Systemd.EnvFile.{
  quoted, keys, is_comment, parse_assignment, or_empty, format_lines, format_env, header_lines,
  has_break, has_byte, valid_name, parse_lines, parse_env, terminated,
}
use omnistat.Systemd.EnvFile.Lines.{
  Lacks, line-Lacks, trim-line, parse_assignment-line, split-terminated,
}

-- A setting that fits on one line of the file.
abbrev pub Storable : Bytes × Bytes → Type 0
Storable (k, v) = (valid_name k ≡ true) × (has_break v ≡ false)

line_of : Map Bytes Bytes → Bytes → Bytes
line_of env k = k ++ b'=' ∷ quoted (or_empty (lookup k env))

parse_lines-setting :
    (i : ℕ) (l line : Bytes) (ls : List Bytes) (m : Map Bytes Bytes) (k v : Bytes)
    → trim_blanks (trim_return l) ≡ line
    → is_comment line ≡ false
    → parse_assignment line ≡ ok (k, v)
    → parse_lines i (l ∷ ls) m ≡ parse_lines (suc i) ls (insert k v m)
unfolding parse_lines
parse_lines-setting i l line ls m k v t c p =
    rw (ap is_comment t ∙ c, ap parse_assignment t ∙ p, parse_lines) refl

module _ (env : Map Bytes Bytes) where
  Fits : Bytes → Type 0
  Fits k = (valid_name k ≡ true) × (has_break (or_empty (lookup k env)) ≡ false)

  format_lines-map :
      (ks : List Bytes) → All Fits ks → format_lines env ks ≡ ok (map (line_of env) ks)
  unfolding format_lines Fits line_of
  format_lines-map [] h = refl
  format_lines-map (k ∷ ks) h = rw (h.0.0, h.0.1, format_lines-map ks h.1, format_lines) refl

  insert_all : List Bytes → Map Bytes Bytes → Map Bytes Bytes
  insert_all [] m = m
  insert_all (k ∷ ks) m = insert_all ks (insert k (or_empty (lookup k env)) m)

  parse_lines-map :
      (i : ℕ) (ks : List Bytes) (m : Map Bytes Bytes)
      → All Fits ks
      → parse_lines i (map (line_of env) ks ++ [] ∷ []) m ≡ ok (insert_all ks m)
  unfolding parse_lines Fits line_of insert_all
  parse_lines-map i [] m h = refl
  parse_lines-map i (k ∷ ks) m h =
      let v = or_empty (lookup k env) in
      let t = trim-line k v h.0.0 in
      parse_lines-setting i (line_of env k) (line_of env k) (map (line_of env) ks ++ [] ∷ []) m k v
        t.0 t.1 (parse_assignment-line k v h.0.0)
      ∙ parse_lines-map (suc i) ks (insert k v m) h.1

  lines-Lacks : (ks : List Bytes) → All Fits ks → All (Lacks b'\n') (map (line_of env) ks)
  unfolding Fits line_of
  lines-Lacks [] h = tt
  lines-Lacks (k ∷ ks) h = (line-Lacks k (or_empty (lookup k env)) h.0.0 h.0.1, lines-Lacks ks h.1)

  lookup-insert_all :
      (j : Bytes) (ks : List Bytes) (m : Map Bytes Bytes)
      → lookup j (insert_all ks m) ≡ (
          if ltb 0 (count_if (λ k. bytes_eq k j) ks)
          then some (or_empty (lookup j env))
          else lookup j m)
  unfolding insert_all count_if
  lookup-insert_all j [] m = refl
  lookup-insert_all j (k ∷ ks) m = ground (
    arith,
    lookup-insert_all j ks (insert k (or_empty (lookup k env)) m),
    lookup-insert k j (or_empty (lookup k env)) m,
    bytes_eq_iff k j,
  )

header-Lacks :
    (env : Map Bytes Bytes) (ks : List Bytes)
    → All (Fits env) ks
    → All (Lacks b'\n') (header_lines ++ map (line_of env) ks)
unfolding has_byte
header-Lacks env ks h = (refl, (refl, (refl, (refl, lines-Lacks env ks h))))

header-skipped :
    (env : Map Bytes Bytes) (ks : List Bytes)
    → All (Fits env) ks
    → parse_lines 1 ((header_lines ++ map (line_of env) ks) ++ [] ∷ []) []
      ≡ ok (insert_all env ks [])
unfolding parse_lines trim_blanks trim_return is_comment
header-skipped env ks h = parse_lines-map env 5 ks [] h

lookup-keys :
    (j : Bytes) (env : Map Bytes Bytes)
    → lookup j env ≡ (
        if ltb 0 (count_if (λ k. bytes_eq k j) (keys env))
        then some (or_empty (lookup j env))
        else none)
unfolding lookup count_if or_empty
lookup-keys j [] = refl
lookup-keys j ((k, v) ∷ env) = ground (arith, lookup-keys j env)

lookup-no_break :
    (k : Bytes) (env : Map Bytes Bytes)
    → All Storable env
    → has_break (or_empty (lookup k env)) ≡ false
unfolding lookup or_empty
lookup-no_break k [] h = unfold has_break has_byte in refl
lookup-no_break k ((j, v) ∷ env) h = ground (arith, h.0.1, lookup-no_break k env h.1)

keys-Fits :
    (all env : Map Bytes Bytes) → All Storable all → All Storable env → All (Fits all) (keys env)
unfolding Fits
keys-Fits all [] s h = tt
keys-Fits all ((k, v) ∷ env) s h = ((h.0.0, lookup-no_break k all s), keys-Fits all env s h.1)

-- If every setting has a valid name and a value without line breaks and zero bytes, FormatEnv
-- writes a file, and ParseEnv reads it without an error as a map with the same settings.
pub parse-format :
    (env : Map Bytes Bytes)
    → All Storable env
    → (file : Bytes) × (read : Map Bytes Bytes) × (format_env env ≡ ok file)
      × (parse_env file ≡ ok read)
      × ((k : Bytes) → lookup k read ≡ lookup k env)
unfolding parse_env format_env lookup
parse-format env h =
    let ks = sort bytes_lt (keys env) in
    let fits : All (Fits env) ks =
      All-sort bytes_lt (Fits env) (keys env) (keys-Fits env env h h) in
    let lines = header_lines ++ map (line_of env) ks in
    (
      terminated lines,
      insert_all env ks [],
      rw (format_lines-map env ks fits, format_env) refl,
      rw (split-terminated lines (header-Lacks env ks fits)) (header-skipped env ks fits),
      λ k.
          lookup-insert_all env k ks []
          ∙ (ap (λ n. if ltb 0 n then some (or_empty (lookup k env)) else none)
                (count_if-sort (λ j. bytes_eq j k) bytes_lt (keys env))
              ∙ sym (lookup-keys k env)),
    )
