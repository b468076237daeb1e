-- ===== src/Manifest/Resolve/Complete/Found.antt =====
-- internal/manifest/resolve.go, `Resolve`: the attributes of the manifests in the result.
use omnistat.Prelude.{
  Bool, Bytes, bytes_eq, bytes_eq_iff, bytes_Eq, Map, lookup, List, [], ◌∷◌, none, some, ◌≡◌, refl,
  sym, ap, ◌∙◌, subst, inl, inr, Bool-cases, arith, All, All-sort, sort, count_if-sort,
}
use omnistat.Prelude.Keyed.{Keyed, values, count-values}
use omnistat.Settle.{ok}
use omnistat.Manifest.{Desired, DesiredAttribute}
use omnistat.Manifest.Validate.{Manifest, Attribute}
use omnistat.Manifest.Resolve.{
  Overrides, module_override, resolve_host, by_module, override_problems,
}
use omnistat.Manifest.Resolve.Templates.{Entities}
use omnistat.Manifest.Resolve.Attributes.{
  Made, add_attributes, attribute_pass, display_pass, with_display, unlabelled,
}
use omnistat.Manifest.Resolve.Whole.{
  attribute_before, desired, entities, find_first, host_of, label, made, resolve, start, problems,
}
use omnistat.Manifest.Resolve.Keyed.{
  display_pass-Keyed, made-Good, resolve-desired, with_display-slug,
}
use omnistat.Manifest.Resolve.Sound.{find_first-some}
use omnistat.Manifest.Resolve.Complete.{
  All-Present, Completes, Declares, Present, add_attributes-Completes, append-nil_left,
  append-nil_right,
}

AllPresent : Map Bytes DesiredAttribute → List Manifest → Type 0
AllPresent attrs ms = All (λ m. All (Present attrs m.module_name) m.attributes) ms

attribute_pass-Completes :
    (e : Entities) (host : Bytes) (ov : Overrides) (ms : List Manifest) (s : Made)
    → (attribute_pass e host ov ms s).problems ≡ []
    → let s' = attribute_pass e host ov ms s in Completes s s' (AllPresent s'.attrs ms)
unfolding attribute_pass AllPresent
attribute_pass-Completes e host ov [] s h = (h, λ o. (o, λ k d l. l, tt))
attribute_pass-Completes e host ov (m ∷ ms) s h =
    let mo = module_override (lookup m.module_name ov.modules) in
    let s1 = add_attributes e host m.module_name mo m.attributes s in
    let s2 = attribute_pass e host ov ms s1 in
    let (none1, rest) = attribute_pass-Completes e host ov ms s1 h in
    let (none0, here) = add_attributes-Completes e host m.module_name mo m.attributes s none1 in
    (
      none0,
      λ owned.
          let (owned1, keeps1, all1) = here owned in
          let (owned2, keeps2, all2) = rest owned1 in
          (
            owned2,
            λ k d q. keeps2 k d (keeps1 k d q),
            (All-Present s1 s2 m.module_name m.attributes keeps2 all1, all2),
          ),
    )

pub lookup-display :
    (l k : Bytes) (d : DesiredAttribute) (m : Map Bytes DesiredAttribute)
    → lookup k m ≡ some d
    → lookup k (display_pass l m) ≡ some (with_display l d)
unfolding lookup display_pass
lookup-display l k d [] h = cc
lookup-display l k d ((j, w) ∷ m) h = elim (Bool-cases (bytes_eq j k)) [
  | inl b ↦ let same : w ≡ d = ground (arith, b, h) in rw b (ap (λ x. some (with_display l x)) same)
  | inr b ↦ rw b (lookup-display l k d m (ground (arith, b, h)))
]

abbrev Own : Map Bytes DesiredAttribute → DesiredAttribute → Type 0
Own m d = lookup d.slug m ≡ some d

pub find_first-All :
    {A : Type 0} (P : A → Type 0) (test : A → Bool) (xs : List A) (x : A)
    → All P xs
    → find_first test xs ≡ some x
    → P x
unfolding find_first
find_first-All P test [] x h e = cc
find_first-All P test (y ∷ xs) x h e = elim (Bool-cases (test y)) [
  | inl b ↦ let same : y ≡ x = ground (arith, b, e) in subst P same h.0
  | inr b ↦ find_first-All P test xs x h.1 (ground (arith, b, e))
]

Own-cons :
    (k : Bytes) (v : DesiredAttribute) (m : Map Bytes DesiredAttribute) (xs : List DesiredAttribute)
    → lookup k m ≡ none
    → All (Own m) xs
    → All (Own ((k, v) ∷ m)) xs
unfolding lookup
Own-cons k v m [] n h = tt
Own-cons k v m (x ∷ xs) n h =
    (ground (arith, bytes_eq_iff k x.slug, n, h.0), Own-cons k v m xs n h.1)

values-Own : (m : Map Bytes DesiredAttribute) → Keyed (λ a. a.slug) m → All (Own m) (values m)
unfolding lookup
values-Own [] h = tt
values-Own ((k, v) ∷ m) (u, h) = (
  rw h.0 (rw ((bytes_eq_iff k k).1 refl) refl),
  Own-cons k v m (values m) u.0 (values-Own m (u.1, h.1)),
)

pub lookup-Keyed :
    (k : Bytes) (d : DesiredAttribute) (m : Map Bytes DesiredAttribute)
    → Keyed (λ a. a.slug) m
    → lookup k m ≡ some d
    → d.slug ≡ k
unfolding lookup
lookup-Keyed k d [] h e = cc
lookup-Keyed k d ((j, w) ∷ m) (u, h) e = elim (Bool-cases (bytes_eq j k)) [
  | inl b ↦
      let same : w ≡ d = ground (arith, b, e) in
      ap (λ x. x.slug) (sym same) ∙ (h.0 ∙ (bytes_eq_iff j k).0 b)
  | inr b ↦ lookup-Keyed k d m (u.1, h.1) (ground (arith, b, e))
]

-- In the values of a map, in any order, the one of a slug is found.
pub found_by_slug :
    (m : Map Bytes DesiredAttribute) (d : DesiredAttribute)
    → Keyed (λ a. a.slug) m
    → lookup d.slug m ≡ some d
    → find_first (λ x. bytes_eq x.slug d.slug) (sort attribute_before (values m)) ≡ some d
found_by_slug m d keyed there =
    let test : DesiredAttribute → Bool = λ x. bytes_eq x.slug d.slug in
    let counted =
      count-values (λ a. a.slug) test d.slug d m there ((bytes_eq_iff d.slug d.slug).1 refl) in
    let (x, found, hit) =
      find_first-some test (sort attribute_before (values m))
        (rw (count_if-sort test attribute_before (values m)) counted) in
    let own =
      find_first-All (Own m) test (sort attribute_before (values m)) x
        (All-sort attribute_before (Own m) (values m) (values-Own m keyed)) found in
    let named = (bytes_eq_iff x.slug d.slug).0 hit in
    let both : some x ≡ some d = sym own ∙ (ap (λ k. lookup k m) named ∙ there) in found ∙ both

-- An attribute of the desired schema stands for the one of the manifest.
abbrev pub Stands : Desired → Bytes → Attribute → Type 0
Stands d name a =
    (x : DesiredAttribute) × (find_first (λ y. bytes_eq y.slug x.slug) d.attributes ≡ some x)
    × Declares name a x

with_display-Declares :
    (l name : Bytes) (a : Attribute) (d : DesiredAttribute)
    → Declares name a d
    → Declares name a (with_display l d)
unfolding with_display
with_display-Declares l name a d (h0, h1, h2, h3, h4) = (
  ground (arith, h0),
  ground (arith, h1),
  ground (arith, h2),
  ground (arith, h3),
  ground (arith, h4),
)

module _ (ms : List Manifest) (ov : Overrides) where
  Present-Stands :
      (name : Bytes) (a : Attribute)
      → Present (made ms ov).attrs name a
      → Stands (desired ms ov) name a
  unfolding desired
  Present-Stands name a (d, there, same) =
      let l = (label ms ov).display in
      let m = display_pass l (made ms ov).attrs in
      let x = with_display l d in
      let slug = with_display-slug l d in
      let there' : lookup x.slug m ≡ some x =
        ap (λ k. lookup k m) slug ∙ lookup-display l d.slug d (made ms ov).attrs there in
      (
        x,
        found_by_slug m x (display_pass-Keyed l (made ms ov).attrs (made-Good ms ov).1) there',
        with_display-Declares l name a d same,
      )

  All-Stands :
      (name : Bytes) (l : List Attribute)
      → All (Present (made ms ov).attrs name) l
      → All (Stands (desired ms ov) name) l
  All-Stands name [] h = tt
  All-Stands name (a ∷ l) h = (Present-Stands name a h.0, All-Stands name l h.1)

  AllStand :
      (l : List Manifest)
      → AllPresent (made ms ov).attrs l
      → All (λ m. All (Stands (desired ms ov) m.module_name) m.attributes) l
  unfolding AllPresent
  AllStand [] h = tt
  AllStand (m ∷ l) h = (All-Stands m.module_name m.attributes h.0, AllStand l h.1)

  made_fine : problems ms ov ≡ [] → (made ms ov).problems ≡ []
  unfolding problems
  made_fine h =
      append-nil_left (made ms ov).problems (unlabelled (label ms ov).display (made ms ov).attrs) (
        append-nil_right (entities ms ov).problems _ (
          append-nil_right (override_problems (by_module ms []) ov.modules) _
            (append-nil_right (resolve_host ov.host_template).1 _ h)))

  -- If Resolve returns no error, for every attribute of every manifest the desired schema has, as
  -- the first attribute of its slug, one with the module, key, kind, options and platforms that
  -- the manifest declares.
  pub resolve-Stands :
      (d : Desired) → resolve ms ov ≡ ok d → All (λ m. All (Stands d m.module_name) m.attributes) ms
  resolve-Stands d h =
      let (same, fine) = resolve-desired ms ov d h in
      let complete =
        attribute_pass-Completes (entities ms ov) (host_of ms ov) ov ms (start ms ov)
          (unfold made in made_fine fine) in
      let present = (complete.1 (unfold start in λ k n. unfold lookup in refl)).2 in
      subst (λ x. All (λ m. All (Stands x m.module_name) m.attributes) ms) (sym same)
        (AllStand ms (unfold made in present))
