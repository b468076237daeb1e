-- ===== src/Systemd/EnvFile/Lines.antt =====
-- internal/systemd/envfile.go: `ParseEnv` on a line that `FormatEnv` writes.
use omnistat.Prelude.{
  ℕ, true, false, Bytes, [], ◌∷◌, ◌++◌, List, ◌≡◌, refl, sym, ap, ◌∙◌, inl, inr, Bool-cases,
  append_assoc, arith, All, ◌==◌, some,
}
use omnistat.Settle.{ok}
use omnistat.Runes.Trim.{trim_blanks, trim_return, trim_space-Visible, Visible}
use omnistat.Systemd.EnvFile.{
  escaped, has_byte, has_break, quoted, parse_assignment, name_char, valid_name, all_name_chars,
  cut, is_comment, split_lines, terminated,
}
use omnistat.Systemd.EnvFile.Values.{parse_value-quoted}

abbrev pub Lacks : ℕ → Bytes → Type 0
Lacks b s = has_byte b s ≡ false

Lacks-append : (b : ℕ) (s t : Bytes) → Lacks b s → Lacks b t → Lacks b (s ++ t)
unfolding has_byte
Lacks-append b [] t h k = k
Lacks-append b (c ∷ s) t h k = ground (arith, Lacks-append b s t, h, k)

cut-append : (b : ℕ) (s t : Bytes) → Lacks b s → cut b (s ++ b ∷ t) ≡ some (s, t)
unfolding cut has_byte
cut-append b [] t h = ground arith
cut-append b (c ∷ s) t h = ground (arith, h, cut-append b s t)

split-line : (l s : Bytes) → Lacks b'\n' l → split_lines (l ++ b'\n' ∷ s) ≡ l ∷ split_lines s
unfolding split_lines has_byte
split-line [] s h = refl
split-line (c ∷ l) s h =
    let e : (c == b'\n') ≡ false = ground (arith, h) in
    rw (e, split-line l s (ground (arith, h)), split_lines) refl

pub split-terminated :
    (ls : List Bytes) → All (Lacks b'\n') ls → split_lines (terminated ls) ≡ ls ++ [] ∷ []
unfolding terminated
split-terminated [] h = unfold split_lines in refl
split-terminated (l ∷ ls) h =
    split-line l (terminated ls) h.0 ∙ ap (λ t. l ∷ t) (split-terminated ls h.1)

name-Visible : (c : ℕ) → name_char c ≡ true → Visible c
unfolding name_char
name-Visible c h = ground arith

all_name_chars-Visible : (k : Bytes) → all_name_chars k ≡ true → All Visible k
unfolding all_name_chars
all_name_chars-Visible [] h = tt
all_name_chars-Visible (c ∷ k) h =
    (name-Visible c (ground (arith, h)), all_name_chars-Visible k (ground (arith, h)))

all_name_chars-Lacks :
    (b : ℕ) (k : Bytes) → name_char b ≡ false → all_name_chars k ≡ true → Lacks b k
unfolding all_name_chars has_byte
all_name_chars-Lacks b [] n h = refl
all_name_chars-Lacks b (c ∷ k) n h = ground (arith, all_name_chars-Lacks b k n, h, n)

all_of_valid : (k : Bytes) → valid_name k ≡ true → all_name_chars k ≡ true
unfolding valid_name all_name_chars name_char
all_of_valid [] h = cc
all_of_valid (c ∷ k) h = ground (arith, h)

quoted-trim : (v : Bytes) → trim_blanks (quoted v) ≡ quoted v
unfolding quoted trim_blanks
quoted-trim v = elim (Bool-cases (has_byte b'\'' v)) [ inl e ↦ rw e refl | inr e ↦ rw e refl ]

-- A name, the equals sign and a quoted value are read as that name and that value.
pub parse_assignment-line :
    (k v : Bytes) → valid_name k ≡ true → parse_assignment (k ++ b'=' ∷ quoted v) ≡ ok (k, v)
unfolding parse_assignment
parse_assignment-line k v h =
    let a = all_of_valid k h in
    rw
      (
        cut-append b'=' k (quoted v) (all_name_chars-Lacks b'=' k (unfold name_char in refl) a),
        ap valid_name (trim_space-Visible k (all_name_chars-Visible k a)) ∙ h,
        quoted-trim v,
        parse_value-quoted v,
        parse_assignment,
      )
      (ap (λ t. ok (t, v)) (trim_space-Visible k (all_name_chars-Visible k a)))

escaped-Lacks : (b : ℕ) (v : Bytes) → (b'\\' == b) ≡ false → Lacks b v → Lacks b (escaped v)
unfolding escaped has_byte
escaped-Lacks b [] n h = refl
escaped-Lacks b (c ∷ v) n h = ground (arith, escaped-Lacks b v n, h, n)

quoted-Lacks : (v : Bytes) → Lacks b'\n' v → Lacks b'\n' (quoted v)
unfolding quoted
quoted-Lacks v h = elim (Bool-cases (has_byte b'\'' v)) [
  | inl e ↦ rw e (
      unfold has_byte in
      Lacks-append b'\n' (escaped v) (b'"' ∷ []) (escaped-Lacks b'\n' v refl h) refl)
  | inr e ↦ rw e (unfold has_byte in Lacks-append b'\n' v (b'\'' ∷ []) h refl)
]

-- Such a line is one line.
pub line-Lacks :
    (k v : Bytes) → valid_name k ≡ true → has_break v ≡ false → Lacks b'\n' (k ++ b'=' ∷ quoted v)
unfolding has_break
line-Lacks k v h n =
    Lacks-append b'\n' k (b'=' ∷ quoted v)
      (all_name_chars-Lacks b'\n' k (unfold name_char in refl) (all_of_valid k h))
      (unfold has_byte in quoted-Lacks v (ground (arith, n)))

trim_return-last :
    (s : Bytes) (c : ℕ) → (c == b'\r') ≡ false → trim_return (s ++ c ∷ []) ≡ s ++ c ∷ []
unfolding trim_return
trim_return-last [] c h = rw h refl
trim_return-last (d ∷ []) c h = rw h refl
trim_return-last (d ∷ e ∷ s) c h = ap (λ t. d ∷ t) (trim_return-last (e ∷ s) c h)

quoted-last :
    (v : Bytes) → (w : Bytes) × (q : ℕ) × (quoted v ≡ w ++ q ∷ []) × ((q == b'\r') ≡ false)
unfolding quoted
quoted-last v = elim (Bool-cases (has_byte b'\'' v)) [
  | inl e ↦ (b'"' ∷ escaped v, b'"', rw e refl, refl)
  | inr e ↦ (b'\'' ∷ v, b'\'', rw e refl, refl)
]

trim-name :
    (k s : Bytes)
    → valid_name k ≡ true
    → (trim_blanks (k ++ s) ≡ k ++ s) × (is_comment (k ++ s) ≡ false)
unfolding valid_name trim_blanks is_comment
trim-name [] s h = cc
trim-name (c ∷ k) s h = (ground (arith, h), ground (arith, h))

-- Nothing of such a line is trimmed, and it is no comment.
pub trim-line :
    (k v : Bytes)
    → valid_name k ≡ true
    → let line = k ++ b'=' ∷ quoted v in
      (trim_blanks (trim_return line) ≡ line) × (is_comment line ≡ false)
trim-line k v h =
    let (w, q, e, n) = quoted-last v in
    let whole : k ++ b'=' ∷ quoted v ≡ (k ++ b'=' ∷ w) ++ q ∷ [] =
      rw e (sym (append_assoc k (b'=' ∷ w) (q ∷ []))) in
    let t : trim_return (k ++ b'=' ∷ quoted v) ≡ k ++ b'=' ∷ quoted v =
      rw whole (trim_return-last (k ++ b'=' ∷ w) q n) in
    let named = trim-name k (b'=' ∷ quoted v) h in (ap trim_blanks t ∙ named.0, named.1)
