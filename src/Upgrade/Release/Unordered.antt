-- ===== src/Upgrade/Release/Unordered.antt =====
-- internal/upgrade/release.go, `Resolve`: the order in which the map is ranged over.
use mathlib.Core.List.{Permᴰ}
use mathlib.Core.List.Permᴰ
use omnistat.Prelude.{
  Bool, true, false, Bytes, Map, List, [], ◌∷◌, Option, none, some, ◌≡◌, refl, ◌∙◌, inl, inr,
  Option-cases,
}
use omnistat.Upgrade.Version.{Version}
use omnistat.Upgrade.Release.{Release, candidate, candidates, choose}

module _ (base : Bytes) (pinned : Option Version) (goos goarch : Bytes) where
  add : Option Release → List Release → List Release
  add none rs = rs
  add (some r) rs = r ∷ rs

  candidates-step :
      (name sum : Bytes) (sums : Map Bytes Bytes)
      → candidates base pinned goos goarch ((name, sum) ∷ sums)
        ≡ add (candidate base pinned goos goarch name sum) (candidates base pinned goos goarch sums)
  unfolding candidates add
  candidates-step name sum sums = elim (Option-cases (candidate base pinned goos goarch name sum)) [
    | inl n ↦ rw n refl
    | inr (r, e) ↦ rw e refl
  ]

  add-perm : (o : Option Release) (rs qs : List Release) → Permᴰ rs qs → Permᴰ (add o rs) (add o qs)
  unfolding add
  add-perm none rs qs p = p
  add-perm (some r) rs qs p = Permᴰ.cons refl p

  add-swap :
      (o u : Option Release) (rs : List Release) → Permᴰ (add o (add u rs)) (add u (add o rs))
  unfolding add
  add-swap none none rs = Permᴰ.refl rs
  add-swap none (some q) rs = Permᴰ.refl (q ∷ rs)
  add-swap (some r) none rs = Permᴰ.refl (r ∷ rs)
  add-swap (some r) (some q) rs = Permᴰ.swap refl refl

  candidates-perm :
      (m n : Map Bytes Bytes)
      → Permᴰ m n
      → Permᴰ (candidates base pinned goos goarch m) (candidates base pinned goos goarch n)
  candidates-perm m n Permᴰ.nil = Permᴰ.refl (candidates base pinned goos goarch [])
  candidates-perm m n (Permᴰ.cons {a = a} {b = b} {l₁ = l} {l₂ = k} e p) =
      rw (e, candidates-step b.0 b.1 l, candidates-step b.0 b.1 k)
        (add-perm (candidate base pinned goos goarch b.0 b.1) _ _ (candidates-perm l k p))
  candidates-perm m n (Permᴰ.swap {a = a} {b = b} {a' = c} {b' = d} {l = l} e f) =
      rw
        (
          e,
          f,
          candidates-step d.0 d.1 (c ∷ l),
          candidates-step c.0 c.1 l,
          candidates-step c.0 c.1 (d ∷ l),
          candidates-step d.0 d.1 l,
        )
        (add-swap (candidate base pinned goos goarch d.0 d.1)
          (candidate base pinned goos goarch c.0 c.1) (candidates base pinned goos goarch l))
  candidates-perm m n (Permᴰ.trans {l₂ = l₂} p q) =
      Permᴰ.trans (candidates-perm m l₂ p) (candidates-perm l₂ n q)

is_nil : List Release → Bool
is_nil [] = true
is_nil (r ∷ rs) = false

is_nil-perm : (rs qs : List Release) → Permᴰ rs qs → is_nil rs ≡ is_nil qs
unfolding is_nil
is_nil-perm rs qs Permᴰ.nil = refl
is_nil-perm rs qs (Permᴰ.cons e p) = refl
is_nil-perm rs qs (Permᴰ.swap e f) = refl
is_nil-perm rs qs (Permᴰ.trans {l₂ = l₂} p q) = is_nil-perm rs l₂ p ∙ is_nil-perm l₂ qs q

module _ {E : Type 0} (pinned : Option Version) where
  choose-cons :
      (r : Release) (rs qs : List Release)
      → is_nil rs ≡ is_nil qs
      → choose {E = E} pinned (r ∷ rs) ≡ choose pinned (r ∷ qs)
  unfolding is_nil choose
  choose-cons r [] [] h = refl
  choose-cons r [] (q ∷ qs) h = cc
  choose-cons r (p ∷ rs) [] h = cc
  choose-cons r (p ∷ rs) (q ∷ qs) h = refl

  choose-perm : (rs qs : List Release) → Permᴰ rs qs → choose {E = E} pinned rs ≡ choose pinned qs
  choose-perm rs qs Permᴰ.nil = refl
  choose-perm rs qs (Permᴰ.cons {a = a} {b = b} {l₁ = l} {l₂ = k} e p) =
      rw e (choose-cons b l k (is_nil-perm l k p))
  choose-perm rs qs (Permᴰ.swap e f) = unfold choose in refl
  choose-perm rs qs (Permᴰ.trans {l₂ = l₂} p q) = choose-perm rs l₂ p ∙ choose-perm l₂ qs q

-- The release that is chosen from checksums, or the refusal, is the same for every order of their
-- entries.
pub choose-unordered :
    {E : Type 0} (base : Bytes) (pinned : Option Version) (goos goarch : Bytes)
    (m n : Map Bytes Bytes)
    → Permᴰ m n
    → choose {E = E} pinned (candidates base pinned goos goarch m)
      ≡ choose pinned (candidates base pinned goos goarch n)
choose-unordered base pinned goos goarch m n p =
    choose-perm pinned _ _ (candidates-perm base pinned goos goarch m n p)
