-- ===== src/Prelude/Distinct.antt =====
-- Lists in which no two elements have the same string.
use mathlib.Core.Path.{◌≡◌}
use mathlib.Core.Bool.{false}
use mathlib.Core.List.{List, [], ◌∷◌, ◌++◌}
use omnistat.Prelude.Lists.{All, All-append}
use omnistat.Prelude.Strings.{Bytes, bytes_eq}

module _ {A : Type 0} (name : A → Bytes) where
  abbrev pub AllDistinct : List A → Type 0
  AllDistinct [] = Unit
  AllDistinct (x ∷ xs) = All (λ y. bytes_eq (name x) (name y) ≡ false) xs × AllDistinct xs

  pub append-AllDistinct :
      (xs ys : List A)
      → AllDistinct xs
      → AllDistinct ys
      → All (λ x. All (λ y. bytes_eq (name x) (name y) ≡ false) ys) xs
      → AllDistinct (xs ++ ys)
  append-AllDistinct [] ys dx dy apart = dy
  append-AllDistinct (x ∷ xs) ys dx dy apart = (
    All-append (λ y. bytes_eq (name x) (name y) ≡ false) xs ys dx.0 apart.0,
    append-AllDistinct xs ys dx.1 dy apart.1,
  )
