-- ===== src/Systemd/EnvFile/Values.antt =====
-- internal/systemd/envfile.go: the reading of a quoted value.
use omnistat.Prelude.{
  ℕ, true, false, Bytes, [], ◌∷◌, ◌++◌, ◌≡◌, refl, ◌∙◌, ap, inl, inr, Bool-cases, append-nil,
  append_assoc, length, take_all, arith, ◌==◌,
}
use omnistat.Settle.{ok}
use omnistat.Systemd.EnvFile.{
  escaped, has_byte, is_special, quoted, read, step, parse_value, Reader, Mode, single_quoted,
  double_quoted,
}

abbrev inside : Mode → Bytes → ℕ → Reader
inside mode out keep = record { mode = mode; out = out; keep = keep; quotes = true }

step-single :
    (c : ℕ) (out : Bytes) (k : ℕ)
    → (c == b'\'') ≡ false
    → step c (inside single_quoted out k) ≡ inside single_quoted (out ++ c ∷ []) k
unfolding step
step-single c out k h = rw h refl

read-single :
    (v out : Bytes) (k : ℕ)
    → has_byte b'\'' v ≡ false
    → read (v ++ b'\'' ∷ []) (inside single_quoted out k) ≡ ok (out ++ v)
unfolding has_byte read
read-single [] out k h =
    unfold step in rw (append-nil out) (ap ok (take_all (length out) out (omega arith)))
read-single (c ∷ v) out k h =
    ap (read (v ++ b'\'' ∷ [])) (step-single c out k (ground (arith, h)))
    ∙ (read-single v (out ++ c ∷ []) k (ground (arith, h)) ∙ ap ok (append_assoc out (c ∷ []) v))

step-special :
    (c : ℕ) (out : Bytes) (k : ℕ)
    → is_special c ≡ true
    → step c (step b'\\' (inside double_quoted out k)) ≡ inside double_quoted (out ++ c ∷ []) k
unfolding step
step-special c out k h = rw h refl

step-literal :
    (c : ℕ) (out : Bytes) (k : ℕ)
    → is_special c ≡ false
    → step c (inside double_quoted out k) ≡ inside double_quoted (out ++ c ∷ []) k
unfolding step is_special
step-literal c out k h = ground (arith, h)

read-escaped :
    (v out : Bytes) (k : ℕ)
    → read (escaped v ++ b'"' ∷ []) (inside double_quoted out k) ≡ ok (out ++ v)
unfolding escaped read
read-escaped [] out k =
    unfold step in rw (append-nil out) (ap ok (take_all (length out) out (omega arith)))
read-escaped (c ∷ v) out k =
    let rest = read-escaped v (out ++ c ∷ []) k ∙ ap ok (append_assoc out (c ∷ []) v) in
    elim (Bool-cases (is_special c)) [
      | inl e ↦ rw e (ap (read (escaped v ++ b'"' ∷ [])) (step-special c out k e) ∙ rest)
      | inr e ↦ rw e (ap (read (escaped v ++ b'"' ∷ [])) (step-literal c out k e) ∙ rest)
    ]

-- What `FormatEnv` writes for a value is read as that value.
pub parse_value-quoted : (v : Bytes) → parse_value (quoted v) ≡ ok v
unfolding parse_value quoted
parse_value-quoted v = elim (Bool-cases (has_byte b'\'' v)) [
  | inl e ↦ rw e (unfold read step in read-escaped v [] 0)
  | inr e ↦ rw e (unfold read step in read-single v [] 0 e)
]
