-- ===== src/Strconv/RoundTrip.antt =====
-- strconv: Atoi of what Itoa prints.
use omnistat.Prelude.{
  ℕ, zero, suc, ◌+◌, ◌-◌, ◌*◌, ◌/◌, ◌%◌, ◌≤◌, ◌<◌, true, false, Bytes, [], ◌∷◌, ◌++◌, ◌≡◌, ◌≢◌,
  refl, ap, ◌∙◌, arith, Bool-cases, inl, inr, ltb, leb, leb→le, ◌==◌,
}
use omnistat.Strconv.{
  pos, max_int, is_digit, digits, decimal, all_digits, value, number, atoi, unsigned, result,
}

value-append : (n : ℕ) (s : Bytes) (c : ℕ) → value n (s ++ c ∷ []) ≡ value n s * 10 + (c - b'0')
unfolding value
value-append n [] c = refl
value-append n (d ∷ s) c = value-append (n * 10 + (d - b'0')) s c

-- More rounds than the number are enough.
value-digits : (fuel n : ℕ) → n < fuel → value 0 (digits fuel n) ≡ n
unfolding digits
value-digits zero n h = absurd (omega arith)
value-digits (suc fuel) n h = elim (Bool-cases (ltb n 10)) [
  | inl e ↦ rw e (unfold value in ground (arith, e))
  | inr e ↦
      rw (e, value-append 0 (digits fuel (n / 10)) (b'0' + n % 10))
        (ground (arith, value-digits fuel (n / 10), e))
]

all_digits-append :
    (s : Bytes) (c : ℕ) → all_digits s ≡ true → is_digit c ≡ true → all_digits (s ++ c ∷ []) ≡ true
unfolding all_digits
all_digits-append [] c h k = ground (arith, k)
all_digits-append (d ∷ s) c h k = ground (arith, all_digits-append s c, h, k)

all_digits-digits : (fuel n : ℕ) → all_digits (digits fuel n) ≡ true
unfolding digits
all_digits-digits zero n = unfold all_digits in refl
all_digits-digits (suc fuel) n = elim (Bool-cases (ltb n 10)) [
  | inl e ↦ rw e (all_digits-append [] (b'0' + n % 10) (unfold all_digits in refl) (ground arith))
  | inr e ↦ rw e (
      all_digits-append (digits fuel (n / 10)) (b'0' + n % 10) (all_digits-digits fuel (n / 10))
        (ground arith))
]

-- The text of a number is digits.
pub decimal-digits : (n : ℕ) → all_digits (decimal n) ≡ true
unfolding decimal
decimal-digits n = all_digits-digits (suc n) n

pub value-decimal : (n : ℕ) → value 0 (decimal n) ≡ n
unfolding decimal
value-decimal n = value-digits (suc n) n (omega arith)

-- It has a first digit, which is a zero only for zero.
first-digits :
    (fuel n : ℕ)
    → n < fuel
    → (d : ℕ) × (t : Bytes) × (digits fuel n ≡ d ∷ t) × (((d == b'0') ≡ true) → (n ≡ 0) × (t ≡ []))
unfolding digits
first-digits zero n h = absurd (omega arith)
first-digits (suc fuel) n h = elim (Bool-cases (ltb n 10)) [
  | inl e ↦ (b'0' + n % 10, [], rw e refl, λ z. (ground (arith, e, z), refl))
  | inr e ↦
      let (d, t, split, first) = first-digits fuel (n / 10) (ground (arith, e)) in
      (d, t ++ (b'0' + n % 10) ∷ [], rw (e, split) refl, λ z. absurd (ground (arith, first z, e)))
]

pub first-decimal :
    (n : ℕ)
    → (d : ℕ) × (t : Bytes) × (decimal n ≡ d ∷ t) × (((d == b'0') ≡ true) → (n ≡ 0) × (t ≡ []))
unfolding decimal
first-decimal n = first-digits (suc n) n (omega arith)

atoi-unsigned : (s : Bytes) → s ≢ [] → all_digits s ≡ true → atoi s ≡ unsigned false s
unfolding atoi all_digits
atoi-unsigned [] n h = absurd (n refl)
atoi-unsigned (c ∷ s) n h = ground (arith, h)

pub atoi-digits :
    (s : Bytes)
    → s ≢ []
    → all_digits s ≡ true
    → value 0 s ≤ max_int
    → atoi s ≡ number (pos (value 0 s))
atoi-digits [] n h fits = absurd (n refl)
atoi-digits (c ∷ s) n h fits =
    atoi-unsigned (c ∷ s) n h ∙ unfold unsigned in rw h (ground (arith, fits))

pub decimal-ne-nil : (n : ℕ) → decimal n ≢ []
decimal-ne-nil n e = let (d, t, split, _) = first-decimal n in cc

-- Every int that is not negative is read back from its decimal print.
pub atoi-decimal : (n : ℕ) → n ≤ max_int → atoi (decimal n) ≡ number (pos n)
atoi-decimal n h =
    let e = value-decimal n in
    atoi-digits (decimal n) (decimal-ne-nil n) (decimal-digits n) (omega (arith, e, h))
    ∙ ap (λ m. number (pos m)) e

-- Atoi of digits is an int that is not negative: the largest one when they spell more.
pub atoi-bounded :
    (s : Bytes) → all_digits s ≡ true → (n : ℕ) × (result (atoi s) ≡ pos n) × (n ≤ max_int)
atoi-bounded [] h = (0, unfold atoi result in refl, omega arith)
atoi-bounded (c ∷ s) h = elim (Bool-cases (leb (value 0 (c ∷ s)) max_int)) [
  | inl e ↦
      let fits : value 0 (c ∷ s) ≤ max_int = leb→le (value 0 (c ∷ s)) max_int e in
      (value 0 (c ∷ s), rw (atoi-digits (c ∷ s) (λ q. cc) h fits) (unfold result in refl), fits)
  | inr e ↦ (
    max_int,
    rw (atoi-unsigned (c ∷ s) (λ q. cc) h)
        (unfold unsigned in rw h (unfold value in unfold result in ground (arith, e))),
    omega arith,
  )
]
