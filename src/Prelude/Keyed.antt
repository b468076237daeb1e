-- ===== src/Prelude/Keyed.antt =====
-- Maps whose values know their key, and the lists of their values.
use mathlib.Core.Path.{◌≡◌, refl}
use mathlib.Core.Logic.{inl, inr}
use mathlib.Core.Bool.{Bool, true, false}
use mathlib.Core.List.{List, [], ◌∷◌, map}
use mathlib.Core.Option.{none, some}
use native.Mathlib.Omega.{arith}
use Prim.Native.Nat.{◌≤◌}
use omnistat.Prelude.Tests.{Bool-cases}
use omnistat.Prelude.Strings.{Bytes, bytes_eq, bytes_eq_iff}
use omnistat.Prelude.Lists.{All}
use omnistat.Prelude.Sorting.{insert_sorted, sort, All-insert_sorted, All-sort}
use omnistat.Prelude.Maps.{Map, bytes_Eq, lookup, insert, Unique, insert-Unique}
use omnistat.Prelude.Counts.{count_if}
use omnistat.Prelude.Distinct.{AllDistinct}

pub bytes_eq_sym : (s t : Bytes) → bytes_eq s t ≡ false → bytes_eq t s ≡ false
bytes_eq_sym s t h = ground (arith, h, bytes_eq_iff s t, bytes_eq_iff t s)

abbrev pub values {ℓ} : {A : Type ℓ} → Map Bytes A → List A
values m = map (λ e. e.1) m

module _ {A : Type 0} (key : A → Bytes) where
  -- Each key is there once, and is its value's.
  abbrev pub Keyed : Map Bytes A → Type 0
  Keyed m = Unique m × All (λ e. key e.1 ≡ e.0) m

  insert-keys :
      (k : Bytes) (v : A) (m : Map Bytes A)
      → key v ≡ k
      → All (λ e. key e.1 ≡ e.0) m
      → All (λ e. key e.1 ≡ e.0) (insert k v m)
  unfolding insert
  insert-keys k v [] e h = (e, tt)
  insert-keys k v ((j, w) ∷ m) e h = elim (Bool-cases (bytes_eq j k)) [
    | inl b ↦ rw b (e, h.1)
    | inr b ↦ rw b (h.0, insert-keys k v m e h.1)
  ]

  pub insert-Keyed : (v : A) (m : Map Bytes A) → Keyed m → Keyed (insert (key v) v m)
  insert-Keyed v m (u, h) = (insert-Unique (key v) v m u, insert-keys (key v) v m refl h)

  others :
      (k : Bytes) (m : Map Bytes A)
      → lookup k m ≡ none
      → All (λ e. key e.1 ≡ e.0) m
      → All (λ y. bytes_eq k (key y) ≡ false) (values m)
  unfolding lookup
  others k [] n h = tt
  others k ((j, w) ∷ m) n h = (
    rw h.0 (ground (arith, n, bytes_eq_iff k j, bytes_eq_iff j k)),
    others k m (ground (arith, n)) h.1,
  )

  pub values-AllDistinct : (m : Map Bytes A) → Keyed m → AllDistinct key (values m)
  values-AllDistinct [] h = tt
  values-AllDistinct ((k, v) ∷ m) (u, h) =
      (rw h.0 (others k m u.0 h.1), values-AllDistinct m (u.1, h.1))

  insert_sorted-AllDistinct :
      (lt : A → A → Bool) (x : A) (xs : List A)
      → All (λ y. bytes_eq (key x) (key y) ≡ false) xs
      → AllDistinct key xs
      → AllDistinct key (insert_sorted lt x xs)
  unfolding insert_sorted
  insert_sorted-AllDistinct lt x [] a d = (tt, tt)
  insert_sorted-AllDistinct lt x (y ∷ ys) a d = elim (Bool-cases (lt y x)) [
    | inl e ↦ rw e (
      All-insert_sorted lt (λ z. bytes_eq (key y) (key z) ≡ false) x ys
          (bytes_eq_sym (key x) (key y) a.0) d.0,
      insert_sorted-AllDistinct lt x ys a.1 d.1,
    )
    | inr e ↦ rw e (a, d)
  ]

  pub sort-AllDistinct :
      (lt : A → A → Bool) (xs : List A) → AllDistinct key xs → AllDistinct key (sort lt xs)
  unfolding sort
  sort-AllDistinct lt [] d = tt
  sort-AllDistinct lt (x ∷ xs) d =
      insert_sorted-AllDistinct lt x (sort lt xs)
        (All-sort lt (λ y. bytes_eq (key x) (key y) ≡ false) xs d.0) (sort-AllDistinct lt xs d.1)

  -- A value that is looked up is one of the values.
  pub count-values :
      (test : A → Bool) (k : Bytes) (v : A) (m : Map Bytes A)
      → lookup k m ≡ some v
      → test v ≡ true
      → 1 ≤ count_if test (values m)
  unfolding lookup count_if
  count-values test k v [] h t = cc
  count-values test k v ((j, w) ∷ m) h t = ground (arith, h, t, count-values test k v m)

  pub All-values : (P : A → Type 0) (m : Map Bytes A) → All (λ e. P e.1) m → All P (values m)
  All-values P [] h = tt
  All-values P (e ∷ m) h = (h.0, All-values P m h.1)
