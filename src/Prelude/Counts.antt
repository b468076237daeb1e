-- ===== src/Prelude/Counts.antt =====
-- How many elements of a list pass a Boolean test.
use Prim.Native.Nat.{ℕ, suc, ◌+◌}
use mathlib.Core.Path.{◌≡◌, refl}
use mathlib.Core.Bool.{Bool, false}
use mathlib.Core.List.{List, [], ◌∷◌, ◌++◌}
use native.Mathlib.Omega.{arith}
use omnistat.Prelude.Tests.{if◌then◌else◌}
use omnistat.Prelude.Lists.{All}
use omnistat.Prelude.Sorting.{insert_sorted, sort}

module _ {A : Type 0} (test : A → Bool) where
  unfoldable pub count_if : List A → ℕ
  count_if [] = 0
  count_if (x ∷ xs) = let rest = count_if xs in if test x then suc rest else rest

  pub count_if-append : (xs ys : List A) → count_if (xs ++ ys) ≡ count_if xs + count_if ys
  unfolding count_if
  count_if-append [] ys = omega arith
  count_if-append (x ∷ xs) ys = ground (arith, count_if-append xs ys)

  count_if-insert_sorted :
      (lt : A → A → Bool) (x : A) (xs : List A)
      → count_if (insert_sorted lt x xs) ≡ count_if (x ∷ xs)
  unfolding count_if insert_sorted
  count_if-insert_sorted lt x [] = refl
  count_if-insert_sorted lt x (y ∷ xs) = ground (arith, count_if-insert_sorted lt x xs)

  pub count_if-sort : (lt : A → A → Bool) (xs : List A) → count_if (sort lt xs) ≡ count_if xs
  unfolding count_if sort
  count_if-sort lt [] = refl
  count_if-sort lt (x ∷ xs) =
      ground (arith, count_if-insert_sorted lt x (sort lt xs), count_if-sort lt xs)

  pub count_if_none : (xs : List A) → All (λ x. test x ≡ false) xs → count_if xs ≡ 0
  unfolding count_if
  count_if_none [] h = refl
  count_if_none (x ∷ xs) h = ground (arith, h.0, count_if_none xs h.1)
