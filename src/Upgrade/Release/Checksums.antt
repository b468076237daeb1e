-- ===== src/Upgrade/Release/Checksums.antt =====
-- internal/upgrade/release.go, `fetchChecksums`: the lines of the checksums and the map made of
-- them.
use omnistat.Prelude.{
  ℕ, suc, true, Bytes, bytes_eq, bytes_eq_iff, bytes_Eq, Map, lookup, insert, lookup-insert, List,
  [], ◌∷◌, some, Unique, insert-Unique, ◌≡◌, refl, sym, ap, ◌∙◌, subst, inl, inr, Bool-cases,
  Option-cases, arith, All, length, ◌==◌, leb,
}
use omnistat.Runes.Trim.{trim_space, trim_return}
use omnistat.Runes.Fields.{fields, to_lower}
use omnistat.Settle.{ok, Result-cases}
use omnistat.Upgrade.Http.{Body, ReadError}
use omnistat.Upgrade.Release.{
  add_fields, add_lines, add_sum, agrees, is_hex_text, read_sums, scan_lines, max_token, trim_star,
}

-- What a line says of a file, if it has the two fields.
abbrev pub Lists : Map Bytes Bytes → List Bytes → Type 0
Lists sums (hash ∷ file ∷ []) = lookup (trim_star file) sums ≡ some (to_lower hash)
Lists sums _ = Unit

abbrev pub Says : Map Bytes Bytes → Bytes → Type 0
Says sums line = Lists sums (fields (trim_space (trim_return line)))

-- Every hash that `m` has is that of `m'` too.
abbrev Extends : Map Bytes Bytes → Map Bytes Bytes → Type 0
Extends m m' = (file hash : Bytes) → lookup file m ≡ some hash → lookup file m' ≡ some hash

insert-Extends :
    (k v : Bytes) (m : Map Bytes Bytes) → agrees v (lookup k m) ≡ true → Extends m (insert k v m)
unfolding agrees
insert-Extends k v m a file hash h =
    lookup-insert k file v m ∙ elim (Bool-cases (bytes_eq k file)) [
      | inl e ↦
          let same = (bytes_eq_iff k file).0 e in
          let here : lookup k m ≡ some hash = subst (λ f. lookup f m ≡ some hash) (sym same) h in
          let eqb : bytes_eq hash v ≡ true = subst (λ o. agrees v o ≡ true) here a in
          rw e (ap some (sym ((bytes_eq_iff hash v).0 eqb)))
      | inr e ↦ rw e h
    ]

Lists-Extends : (m m' : Map Bytes Bytes) (fs : List Bytes) → Extends m m' → Lists m fs → Lists m' fs
Lists-Extends m m' [] x h = tt
Lists-Extends m m' (f ∷ []) x h = tt
Lists-Extends m m' (hash ∷ file ∷ []) x h = x (trim_star file) (to_lower hash) h
Lists-Extends m m' (a ∷ b ∷ c ∷ fs) x h = tt

module _ {E : Type 0} where
  add_sum-ok :
      (n : ℕ) (hash file : Bytes) (m m' : Map Bytes Bytes)
      → add_sum {E = E} n hash file m ≡ ok m'
      → (agrees (to_lower hash) (lookup (trim_star file) m) ≡ true)
        × (insert (trim_star file) (to_lower hash) m ≡ m')
  unfolding add_sum
  add_sum-ok n hash file m m' e = elim (Bool-cases (length hash == 64)) [
    | inr l ↦ absurd (ground (arith, l, e))
    | inl l ↦ elim (Bool-cases (is_hex_text hash)) [
      | inr x ↦ absurd (ground (arith, l, x, e))
      | inl x ↦ elim (Bool-cases (agrees (to_lower hash) (lookup (trim_star file) m))) [
        | inr a ↦ absurd (ground (arith, l, x, a, e))
        | inl a ↦ (a, ground (arith, l, x, a, e))
      ]
    ]
  ]

  add_fields-Extends :
      (n : ℕ) (fs : List Bytes) (m m' : Map Bytes Bytes)
      → add_fields {E = E} n fs m ≡ ok m'
      → Extends m m' × Lists m' fs × (Unique m → Unique m')
  unfolding add_fields
  add_fields-Extends n [] m m' e =
      let same : m ≡ m' = cc in
      (λ f h l. subst (λ q. lookup f q ≡ some h) same l, tt, subst Unique same)
  add_fields-Extends n (f ∷ []) m m' e = cc
  add_fields-Extends n (hash ∷ file ∷ []) m m' e =
      let (a, same) = add_sum-ok n hash file m m' e in
      let k = trim_star file in
      let v = to_lower hash in
      (
        subst (Extends m) same (insert-Extends k v m a),
        subst (λ q. lookup k q ≡ some v) same
            (lookup-insert k k v m ∙ rw ((bytes_eq_iff k k).1 refl) refl),
        λ u. subst Unique same (insert-Unique k v m u),
      )
  add_fields-Extends n (a ∷ b ∷ c ∷ fs) m m' e = cc

  add_lines-Says :
      (n : ℕ) (ls : List Bytes) (m m' : Map Bytes Bytes)
      → add_lines {E = E} n ls m ≡ ok m'
      → Extends m m' × All (Says m') ls × (Unique m → Unique m')
  unfolding add_lines
  add_lines-Says n [] m m' e =
      let same : m ≡ m' = cc in
      (λ f h l. subst (λ q. lookup f q ≡ some h) same l, tt, subst Unique same)
  add_lines-Says n (l ∷ ls) m m' e = elim (Bool-cases (leb max_token (length l))) [
    | inl b ↦ absurd (ground (arith, b, e))
    | inr b ↦
        let fs = fields (trim_space (trim_return l)) in
        elim (Result-cases (add_fields {E = E} n fs m)) [
          | inl (f, q) ↦ absurd (ground (arith, b, q, e))
          | inr (n1, q) ↦
              let (x, here, u) = add_fields-Extends n fs m n1 q in
              let rest : add_lines {E = E} (suc n) ls n1 ≡ ok m' = ground (arith, b, q, e) in
              let (x', all, u') = add_lines-Says (suc n) ls n1 m' rest in
              (λ f h a. x' f h (x f h a), (Lists-Extends n1 m' fs x' here, all), λ w. u' (u w))
        ]
  ]

  -- Where the checksums are read without an error, each line of two fields has its hash, in lower
  -- case, as the hash of its file in the result, and a file is in the result once.
  pub read_sums-Says :
      (body : Body (ReadError E)) (sums : Map Bytes Bytes)
      → read_sums body ≡ ok sums
      → All (Says sums) (scan_lines body.content) × Unique sums
  unfolding read_sums
  read_sums-Says body sums e =
      elim (Result-cases (add_lines {E = E} 1 (scan_lines body.content) [])) [
        | inl (f, q) ↦ absurd (ground (arith, q, e))
        | inr (m, q) ↦
            let (x, all, u) = add_lines-Says 1 (scan_lines body.content) [] m q in
            let same : m ≡ sums = elim (Option-cases body.failure) [
              | inl n ↦ ground (arith, q, n, e)
              | inr (f, n) ↦ absurd (ground (arith, q, n, e))
            ] in
            subst (λ w. All (Says w) (scan_lines body.content) × Unique w) same (all, u tt)
      ]
