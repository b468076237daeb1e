-- ===== src/Settle.antt =====
-- internal/settle/settle.go: re-reading until a write of one's own is visible. What the readers
-- and the clock see is a state that reads and sleeps change. A policy is its list of delays.
pub mod Laws
use omnistat.Prelude.{ℕ, Bool, true, false, List, [], ◌∷◌, ◌≡◌, refl, ◌⊎◌, inl, inr}

pub data Result {ℓ κ} (E : Type ℓ) (A : Type κ) : Type (ℓ ⊔ κ) where
  ok : A → Result E A
  err : E → Result E A

pub Result-cases {ℓ κ} :
    {E : Type ℓ} {A : Type κ} (r : Result E A) → ((e : E) × (r ≡ err e)) ⊎ ((a : A) × (r ≡ ok a))
Result-cases (ok a) = inr (a, refl)
Result-cases (err e) = inl (e, refl)

-- What `Until` returns: the last result and whether it was accepted, or the error of a read.
pub data Settled {ℓ κ} (E : Type ℓ) (A : Type κ) : Type (ℓ ⊔ κ) where
  finished : A → Bool → Settled E A
  failed : E → Settled E A

pub Settled-cases {ℓ κ} :
    {E : Type ℓ} {A : Type κ} (r : Settled E A)
    → ((e : E) × (r ≡ failed e)) ⊎ ((a : A) × (b : Bool) × (r ≡ finished a b))
Settled-cases (finished a b) = inr (a, b, refl)
Settled-cases (failed e) = inl (e, refl)

module _ {E T S : Type 0} (sleep : ℕ → S → Bool × S) (read : S → Result E T × S)
    (done : T → Bool) where
  -- `sleep` answers true if the context ended. One delay is used up between two reads.
  unfoldable pub until : List ℕ → S → Settled E T × S
  until [] s =
      let (r, s') = read s in
      elim r [
        | err e ↦ (failed e, s')
        | ok last ↦ elim (done last) [
          | true ↦ (finished last true, s')
          | false ↦ (finished last false, s')
        ]
      ]
  until (d ∷ delays) s =
      let (r, s') = read s in
      elim r [
        | err e ↦ (failed e, s')
        | ok last ↦ elim (done last) [
          | true ↦ (finished last true, s')
          | false ↦
              let (cancelled, s'') = sleep d s' in
              elim cancelled [ true ↦ (finished last false, s'') | false ↦ until delays s'' ]
        ]
      ]
