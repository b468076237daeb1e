-- ===== src/Settle/Laws.antt =====
-- internal/settle/settle.go: the budget of reads, and writes that become visible within it.
use omnistat.Prelude.{
  ℕ, suc, ◌+◌, ◌≤◌, Bool, true, false, List, [], ◌∷◌, ◌++◌, ◌≡◌, arith, length, Bool-cases, inl,
  inr,
}
use omnistat.Settle.{Result, ok, finished, until}

module _ {E T S : Type 0} where
  -- The same state, with a count of the reads.
  abbrev pub counting : (S → Result E T × S) → S × ℕ → Result E T × (S × ℕ)
  counting read (s, n) = let (r, s') = read s in (r, (s', suc n))

  module _ (sleep : ℕ → S → Bool × S) (read : S → Result E T × S) (done : T → Bool) where
    -- A result is reported as settled exactly if the caller's condition holds of it.
    settled-until :
        (delays : List ℕ) (s : S) (v : T) (b : Bool)
        → (until sleep read done delays s).0 ≡ finished v b
        → done v ≡ b
    unfolding until
    settled-until [] s v b h = ground arith
    settled-until (d ∷ delays) s v b h =
        ground (arith, settled-until delays (sleep d (read s).1).1 v b)

module _ {S : Type 0} where
  abbrev pub silent : (ℕ → S → Bool × S) → ℕ → S × ℕ → Bool × (S × ℕ)
  silent sleep d (s, n) = let (c, s') = sleep d s in (c, (s', n))

module _ {E T S : Type 0} (sleep : ℕ → S → Bool × S) (read : S → Result E T × S)
    (done : T → Bool) where
  -- Until reads at least once, and at most once more than there are delays.
  reads-until :
      (delays : List ℕ) (s : S) (n : ℕ)
      → (suc n ≤ (until (silent sleep) (counting read) done delays (s, n)).1.1)
        × ((until (silent sleep) (counting read) done delays (s, n)).1.1 ≤ suc n + length delays)
  unfolding until
  reads-until [] s n = (ground arith, ground arith)
  reads-until (d ∷ delays) s n =
      let ih = reads-until delays (sleep d (read s).1).1 (suc n) in
      (ground (arith, ih.0), ground (arith, ih.1))

-- A platform whose reads succeed and change nothing, seen through `view`, and a clock that is
-- never cancelled.
module _ {T S : Type 0} (E : Type 0) (view : S → T) where
  abbrev pub reading : S → Result E T × S
  reading s = (ok (view s), s)

module _ {S : Type 0} (pass : ℕ → S → S) where
  abbrev pub after : List ℕ → S → S
  after [] s = s
  after (d ∷ ds) s = after ds (pass d s)

  abbrev pub sleeping : ℕ → S → Bool × S
  sleeping d s = (false, pass d s)

-- On a platform whose reads succeed and change nothing, and with a clock that is never cancelled,
-- if the condition holds after some of the delays, Until returns a result of which it holds.
pub until_finds :
    {E T S : Type 0} (view : S → T) (pass : ℕ → S → S) (done : T → Bool) (ds rest : List ℕ) (s : S)
    → done (view (after pass ds s)) ≡ true
    → (v : T) × ((until (sleeping pass) (reading E view) done (ds ++ rest) s).0 ≡ finished v true)
      × (done v ≡ true)
unfolding until
until_finds view pass done [] [] s h = (view s, ground arith, h)
until_finds view pass done [] (d ∷ rest) s h = (view s, ground arith, h)
until_finds {E} view pass done (d ∷ ds) rest s h = elim (Bool-cases (done (view s))) [
  | inl now ↦ (view s, ground arith, now)
  | inr later ↦
      let (v, found, holds) = until_finds {E = E} view pass done ds rest (pass d s) h in
      (v, ground (arith, found), holds)
]
