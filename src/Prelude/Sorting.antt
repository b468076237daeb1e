-- ===== src/Prelude/Sorting.antt =====
-- Go's sort.Slice and sort.SliceStable by a Boolean test, as a stable insertion sort. Where the
-- source sorts by a key without repetition every sorting algorithm returns this list.
use mathlib.Core.Path.{◌≡◌, refl, subst}
use mathlib.Core.Bool.{Bool, true, false}
use mathlib.Core.List.{List, [], ◌∷◌, Perm}
use mathlib.Core.List.Perm
use omnistat.Prelude.Tests.{if◌then◌else◌, Bool-cases}
use mathlib.Core.Logic.{inl, inr}
use Prim.Native.Nat.{suc}
use native.Mathlib.Omega.{arith}
use omnistat.Prelude.Lists.{All, length}

module _ {A : Type 0} (lt : A → A → Bool) where
  unfoldable pub insert_sorted : A → List A → List A
  insert_sorted x [] = x ∷ []
  insert_sorted x (y ∷ ys) = if lt y x then y ∷ insert_sorted x ys else x ∷ y ∷ ys

  unfoldable pub sort : List A → List A
  unfolding insert_sorted
  sort [] = []
  sort (x ∷ xs) = insert_sorted x (sort xs)

  insert_sorted-perm : (x : A) (ys : List A) → Perm (insert_sorted x ys) (x ∷ ys)
  unfolding insert_sorted
  insert_sorted-perm x [] = Perm.refl (x ∷ [])
  insert_sorted-perm x (y ∷ ys) = elim (Bool-cases (lt y x)) [
    | inl h ↦ rw h (Perm.trans (Perm.cons y (insert_sorted-perm x ys)) (Perm.swap x y ys))
    | inr h ↦ rw h (Perm.refl (x ∷ y ∷ ys))
  ]

  -- Sorting loses and invents nothing.
  pub sort-perm : (xs : List A) → Perm (sort xs) xs
  unfolding sort
  sort-perm [] = Perm.refl []
  sort-perm (x ∷ xs) = Perm.trans (insert_sorted-perm x (sort xs)) (Perm.cons x (sort-perm xs))

  -- No element comes before a smaller one.
  abbrev pub IsSorted : List A → Type 0
  IsSorted [] = Unit
  IsSorted (x ∷ xs) = All (λ y. lt y x ≡ false) xs × IsSorted xs

  pub All-insert_sorted :
      (P : A → Type 0) (x : A) (ys : List A) → P x → All P ys → All P (insert_sorted x ys)
  unfolding insert_sorted
  All-insert_sorted P x [] px h = (px, tt)
  All-insert_sorted P x (y ∷ ys) px h = elim (Bool-cases (lt y x)) [
    | inl e ↦ rw e (h.0, All-insert_sorted P x ys px h.1)
    | inr e ↦ rw e (px, h)
  ]

  pub All-sort : (P : A → Type 0) (xs : List A) → All P xs → All P (sort xs)
  unfolding sort
  All-sort P [] h = tt
  All-sort P (x ∷ xs) h = All-insert_sorted P x (sort xs) h.0 (All-sort P xs h.1)

  module _ (asym : (x y : A) → lt x y ≡ true → lt y x ≡ false)
      (cotrans : (x y z : A) → lt y x ≡ false → lt z y ≡ false → lt z x ≡ false) where
    All-weaken :
        (x y : A) (zs : List A)
        → lt y x ≡ false
        → All (λ z. lt z y ≡ false) zs
        → All (λ z. lt z x ≡ false) zs
    All-weaken x y [] h a = tt
    All-weaken x y (z ∷ zs) h a = (cotrans x y z h a.0, All-weaken x y zs h a.1)

    insert_sorted-IsSorted : (x : A) (ys : List A) → IsSorted ys → IsSorted (insert_sorted x ys)
    unfolding insert_sorted
    insert_sorted-IsSorted x [] s = (tt, tt)
    insert_sorted-IsSorted x (y ∷ ys) s = elim (Bool-cases (lt y x)) [
      | inl e ↦ rw e (
        All-insert_sorted (λ z. lt z y ≡ false) x ys (asym y x e) s.0,
        insert_sorted-IsSorted x ys s.1,
      )
      | inr e ↦ rw e ((e, All-weaken x y ys e s.0), s)
    ]

    -- By a strict weak order the result is sorted.
    pub sort-IsSorted : (xs : List A) → IsSorted (sort xs)
    unfolding sort
    sort-IsSorted [] = tt
    sort-IsSorted (x ∷ xs) = insert_sorted-IsSorted x (sort xs) (sort-IsSorted xs)

  All-of-insert_sorted :
      (P : A → Type 0) (x : A) (ys : List A) → All P (insert_sorted x ys) → P x × All P ys
  unfolding insert_sorted
  All-of-insert_sorted P x [] h = (h.0, tt)
  All-of-insert_sorted P x (y ∷ ys) h = elim (Bool-cases (lt y x)) [
    | inl e ↦
        let h' = subst (λ b. All P (if b then y ∷ insert_sorted x ys else x ∷ y ∷ ys)) e h in
        let rest = All-of-insert_sorted P x ys h'.1 in (rest.0, (h'.0, rest.1))
    | inr e ↦ subst (λ b. All P (if b then y ∷ insert_sorted x ys else x ∷ y ∷ ys)) e h
  ]

  pub All-of-sort : (P : A → Type 0) (xs : List A) → All P (sort xs) → All P xs
  unfolding sort
  All-of-sort P [] h = tt
  All-of-sort P (x ∷ xs) h =
      let h' = All-of-insert_sorted P x (sort xs) h in (h'.0, All-of-sort P xs h'.1)

  insert_sorted-nil : (x : A) (ys : List A) → ¬ (insert_sorted x ys ≡ [])
  unfolding insert_sorted
  insert_sorted-nil x [] h = cc
  insert_sorted-nil x (y ∷ ys) h = ground arith

  pub sort-nil : (xs : List A) → sort xs ≡ [] → xs ≡ []
  unfolding sort
  sort-nil [] h = refl
  sort-nil (x ∷ xs) h = absurd (insert_sorted-nil x (sort xs) h)

  length-insert_sorted : (x : A) (xs : List A) → length (insert_sorted x xs) ≡ suc (length xs)
  unfolding insert_sorted
  length-insert_sorted x [] = refl
  length-insert_sorted x (y ∷ xs) = ground (arith, length-insert_sorted x xs)

  pub length-sort : (xs : List A) → length (sort xs) ≡ length xs
  unfolding sort
  length-sort [] = refl
  length-sort (x ∷ xs) = omega (arith, length-insert_sorted x (sort xs), length-sort xs)
