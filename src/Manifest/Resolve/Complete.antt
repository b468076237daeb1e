-- ===== src/Manifest/Resolve/Complete.antt =====
-- internal/manifest/resolve.go, `Resolve`: what becomes of an attribute of a manifest.
pub mod Found
use omnistat.Prelude.{
  ℕ, ◌≤◌, Bool, true, false, ◌&&◌, Bytes, bytes_eq, bytes_eq_iff, bytes_Eq, Map, lookup, insert,
  lookup-insert, List, [], ◌∷◌, ◌++◌, Option, none, some, ◌≡◌, refl, sym, ap, ◌∙◌, subst, inl, inr,
  Bool-cases, Option-cases, List-cases, if◌then◌else◌, arith, All, All-sort, map, sort, count_if,
  count_if-sort, Unique,
}
use omnistat.Prelude.Keyed.{Keyed, values, count-values, All-values}
use omnistat.Settle.{Result, ok, err}
use omnistat.Manifest.{Desired, DesiredTemplate, DesiredAttribute, Kind}
use omnistat.Manifest.Validate.{Manifest, Template, Attribute}
use omnistat.Manifest.Resolve.{
  Overrides, ModuleOverride, Problem, slug_mapped_twice, module_override, attribute_override,
}
use omnistat.Manifest.Resolve.Templates.{Entities}
use omnistat.Manifest.Resolve.Attributes.{
  Made, add_attribute, add_attributes, add_desired, attribute_pass, declare_named,
  desired_attribute, display_pass, place, attribute_id, with_display,
}
use omnistat.Manifest.Resolve.Whole.{
  attribute_before, desired, entities, find_first, host_of, label, made, resolve, start, problems,
}
use omnistat.Manifest.Resolve.Keyed.{
  display_pass-Keyed, made-Good, resolve-desired, with_display-slug,
}
use omnistat.Manifest.Resolve.Sound.{find_first-some}

-- The desired attribute of a manifest's attribute; what overrides may change is left out.
abbrev pub Declares : Bytes → Attribute → DesiredAttribute → Type 0
Declares name a d =
    (d.module_name ≡ name)
    × (d.key ≡ a.key)
    × (d.kind ≡ a.kind)
    × (d.options ≡ a.options)
    × (d.platforms ≡ a.platforms)

-- A slug without an owner is free.
abbrev Owned : Made → Type 0
Owned s = (k : Bytes) → lookup k s.owner ≡ none → lookup k s.attrs ≡ none

abbrev Keeps : Made → Made → Type 0
Keeps s s' =
    (k : Bytes) (d : DesiredAttribute) → lookup k s.attrs ≡ some d → lookup k s'.attrs ≡ some d

pub append-nil_left : {A : Type 0} (xs ys : List A) → xs ++ ys ≡ [] → xs ≡ []
append-nil_left [] ys h = refl
append-nil_left (x ∷ xs) ys h = cc

append-ne-nil : {A : Type 0} (xs : List A) (y : A) → ¬ (xs ++ y ∷ [] ≡ [])
append-ne-nil [] y h = cc
append-ne-nil (x ∷ xs) y h = cc

pub append-nil_right : {A : Type 0} (xs ys : List A) → xs ++ ys ≡ [] → ys ≡ []
append-nil_right [] ys h = h
append-nil_right (x ∷ xs) ys h = cc

-- The state with an attribute under a slug that was free.
abbrev added : Bytes → DesiredAttribute → List Problem → Made → Made
added id d ps s = record {
  templates = declare_named d.templates s.templates;
  attrs = insert d.slug d s.attrs;
  owner = insert d.slug id s.owner;
  problems = s.problems ++ ps;
}

added-Owned :
    (id : Bytes) (d : DesiredAttribute) (ps : List Problem) (s : Made)
    → Owned s
    → Owned (added id d ps s)
added-Owned id d ps s o k h =
    ground (arith, h, o k, lookup-insert d.slug k id s.owner, lookup-insert d.slug k d s.attrs)

added-Keeps :
    (id : Bytes) (d : DesiredAttribute) (ps : List Problem) (s : Made)
    → lookup d.slug s.attrs ≡ none
    → Keeps s (added id d ps s)
added-Keeps id d ps s n k w h =
    ground (arith, h, n, lookup-insert d.slug k d s.attrs, bytes_eq_iff d.slug k)

-- A step without a problem: what was there stays, and `d` is there.
abbrev Adds : Made → Made → DesiredAttribute → Type 0
Adds s s' d =
    (s.problems ≡ []) × (Owned s → Owned s' × Keeps s s' × (lookup d.slug s'.attrs ≡ some d))

add_desired-Adds :
    (id : Bytes) (d : DesiredAttribute) (ps : List Problem) (s : Made)
    → (add_desired id d ps s).problems ≡ []
    → Adds s (add_desired id d ps s) d
unfolding add_desired
add_desired-Adds id d ps s h = elim (Option-cases (lookup d.slug s.owner)) [
  | inr (prev, e) ↦
      let twice = slug_mapped_twice d.slug prev id in
      let grown : s.problems ++ (ps ++ twice ∷ []) ≡ (add_desired id d ps s).problems =
        rw (e, add_desired) refl in
      absurd (append-ne-nil ps twice (append-nil_right s.problems (ps ++ twice ∷ []) (grown ∙ h)))
  | inl n ↦
      let same : added id d ps s ≡ add_desired id d ps s = rw (n, add_desired) refl in
      subst (λ x. Adds s x d) same
        (
          append-nil_left s.problems ps (ap (λ x. x.problems) same ∙ h),
          λ o. (
            added-Owned id d ps s o,
            added-Keeps id d ps s (o d.slug n),
            lookup-insert d.slug d.slug d s.attrs ∙ rw ((bytes_eq_iff d.slug d.slug).1 refl) refl,
          ),
        )
]

-- The attribute of a manifest is there, under its slug.
abbrev Present : Map Bytes DesiredAttribute → Bytes → Attribute → Type 0
Present m name a = (d : DesiredAttribute) × (lookup d.slug m ≡ some d) × Declares name a d

-- Steps without a problem: what was there stays, and the attributes are there.
abbrev Completes : Made → Made → Type 0 → Type 0
Completes s s' All_there = (s.problems ≡ []) × (Owned s → Owned s' × Keeps s s' × All_there)

All-Present :
    (s s' : Made) (name : Bytes) (l : List Attribute)
    → Keeps s s'
    → All (Present s.attrs name) l
    → All (Present s'.attrs name) l
All-Present s s' name [] k h = tt
All-Present s s' name (a ∷ l) k h =
    let (d, there, same) = h.0 in ((d, k d.slug d there, same), All-Present s s' name l k h.1)

add_attributes-Completes :
    (e : Entities) (host name : Bytes) (mo : ModuleOverride) (l : List Attribute) (s : Made)
    → (add_attributes e host name mo l s).problems ≡ []
    → let s' = add_attributes e host name mo l s in Completes s s' (All (Present s'.attrs name) l)
unfolding add_attributes
add_attributes-Completes e host name mo [] s h = (h, λ o. (o, λ k d l. l, tt))
add_attributes-Completes e host name mo (a ∷ l) s h =
    let o = attribute_override (lookup a.key mo.attributes) in
    let p = place e host name o.template mo.template a in
    let d = desired_attribute host name o p a in
    let s1 = add_attribute e host name mo a s in
    let s2 = add_attributes e host name mo l s1 in
    let (none1, rest) = add_attributes-Completes e host name mo l s1 h in
    let (none0, here) =
      add_desired-Adds (attribute_id name a.key) d p.problems s (unfold add_attribute in none1) in
    (
      none0,
      λ owned.
          let (owned1, keeps1, there) = here owned in
          let (owned2, keeps2, all) = rest (unfold add_attribute in owned1) in
          (
            owned2,
            λ k w q. keeps2 k w (unfold add_attribute in keeps1 k w q),
            (
              (
                d,
                keeps2 d.slug d (unfold add_attribute in there),
                unfold desired_attribute in (refl, refl, refl, refl, refl),
              ),
              all,
            ),
          ),
    )
