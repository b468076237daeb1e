-- ===== src/Manifest/Resolve/Keyed.antt =====
-- internal/manifest/resolve.go, `Resolve`: the slugs of the desired schema.
use omnistat.Prelude.{
  Bytes, bytes_Eq, Map, lookup, List, [], ◌∷◌, none, ◌≡◌, refl, sym, ◌∙◌, subst, inl, inr,
  Option-cases, List-cases, arith, AllDistinct,
}
use omnistat.Prelude.Keyed.{Keyed, insert-Keyed, values, values-AllDistinct, sort-AllDistinct}
use omnistat.Settle.{ok}
use omnistat.Manifest.{Desired, DesiredTemplate, DesiredAttribute}
use omnistat.Manifest.Validate.{Manifest, Template, Attribute}
use omnistat.Manifest.Resolve.{
  Overrides, ModuleOverride, Problem, module_override, attribute_override,
}
use omnistat.Manifest.Resolve.Templates.{
  Entities, declare, declare_all, desired_template, host_desired, template_pass,
}
use omnistat.Manifest.Resolve.Attributes.{
  Made, add_attribute, add_attributes, add_desired, attribute_pass, declare_named,
  desired_attribute, display_pass, named_by_slug, place, attribute_id, with_display,
}
use omnistat.Manifest.Resolve.Whole.{
  attribute_before, desired, entities, host_of, label, made, resolve, start, template_before,
  problems,
}

-- The templates that are declared, by their slug.
abbrev Templates : Map Bytes DesiredTemplate → Type 0
Templates ts = Keyed (λ t. t.slug) ts

abbrev Attributes : Map Bytes DesiredAttribute → Type 0
Attributes m = Keyed (λ a. a.slug) m

declare-Keyed :
    (t : DesiredTemplate) (ts : Map Bytes DesiredTemplate) → Templates ts → Templates (declare t ts)
unfolding declare
declare-Keyed t ts h = elim (Option-cases (lookup t.slug ts)) [
  | inl n ↦ rw (n, declare) (insert-Keyed (λ t. t.slug) t ts h)
  | inr (u, e) ↦ rw (e, declare) h
]

declare_all-Keyed :
    (s : Entities) (name : Bytes) (l : List Template) (ts : Map Bytes DesiredTemplate)
    → Templates ts
    → Templates (declare_all s name l ts)
unfolding declare_all
declare_all-Keyed s name [] ts h = h
declare_all-Keyed s name (t ∷ l) ts h =
    declare_all-Keyed s name l (declare (desired_template s name t) ts)
      (declare-Keyed (desired_template s name t) ts h)

template_pass-Keyed :
    (s : Entities) (ms : List Manifest) (ts : Map Bytes DesiredTemplate)
    → Templates ts
    → Templates (template_pass s ms ts)
unfolding template_pass
template_pass-Keyed s [] ts h = h
template_pass-Keyed s (m ∷ ms) ts h =
    template_pass-Keyed s ms (declare_all s m.module_name m.templates ts)
      (declare_all-Keyed s m.module_name m.templates ts h)

abbrev pub Good : Made → Type 0
Good s = Templates s.templates × Attributes s.attrs

declare_named-Keyed :
    (l : List Bytes) (ts : Map Bytes DesiredTemplate)
    → Templates ts
    → Templates (declare_named l ts)
unfolding declare_named
declare_named-Keyed [] ts h = h
declare_named-Keyed (tpl ∷ l) ts h = declare-Keyed (named_by_slug tpl) ts h

add_desired-Good :
    (id : Bytes) (d : DesiredAttribute) (ps : List Problem) (s : Made)
    → Good s
    → Good (add_desired id d ps s)
unfolding add_desired
add_desired-Good id d ps s (ht, ha) =
    let ht' = declare_named-Keyed d.templates s.templates ht in
    elim (Option-cases (lookup d.slug s.owner)) [
      | inl n ↦ rw (n, add_desired) (ht', insert-Keyed (λ a. a.slug) d s.attrs ha)
      | inr (prev, e) ↦ rw (e, add_desired) (ht', ha)
    ]

add_attributes-Good :
    (e : Entities) (host name : Bytes) (mo : ModuleOverride) (l : List Attribute) (s : Made)
    → Good s
    → Good (add_attributes e host name mo l s)
unfolding add_attributes add_attribute
add_attributes-Good e host name mo [] s h = h
add_attributes-Good e host name mo (a ∷ l) s h =
    let o = attribute_override (lookup a.key mo.attributes) in
    let p = place e host name o.template mo.template a in
    add_attributes-Good e host name mo l (add_attribute e host name mo a s) (
      add_desired-Good (attribute_id name a.key) (desired_attribute host name o p a) p.problems s h)

attribute_pass-Good :
    (e : Entities) (host : Bytes) (ov : Overrides) (ms : List Manifest) (s : Made)
    → Good s
    → Good (attribute_pass e host ov ms s)
unfolding attribute_pass
attribute_pass-Good e host ov [] s h = h
attribute_pass-Good e host ov (m ∷ ms) s h =
    let mo = module_override (lookup m.module_name ov.modules) in
    attribute_pass-Good e host ov ms (add_attributes e host m.module_name mo m.attributes s)
      (add_attributes-Good e host m.module_name mo m.attributes s h)

pub with_display-slug : (l : Bytes) (d : DesiredAttribute) → (with_display l d).slug ≡ d.slug
unfolding with_display
with_display-slug l d = ground arith

lookup-display_none :
    (l k : Bytes) (m : Map Bytes DesiredAttribute)
    → lookup k m ≡ none
    → lookup k (display_pass l m) ≡ none
unfolding lookup display_pass
lookup-display_none l k [] h = refl
lookup-display_none l k ((j, d) ∷ m) h = ground (arith, h, lookup-display_none l k m)

pub display_pass-Keyed :
    (l : Bytes) (m : Map Bytes DesiredAttribute) → Attributes m → Attributes (display_pass l m)
unfolding display_pass
display_pass-Keyed l [] h = (tt, tt)
display_pass-Keyed l ((k, d) ∷ m) (u, h) =
    let (u', h') = display_pass-Keyed l m (u.1, h.1) in
    ((lookup-display_none l k m u.0, u'), (with_display-slug l d ∙ h.0, h'))

module _ (ms : List Manifest) (ov : Overrides) where
  pub made-Good : Good (made ms ov)
  unfolding made start
  made-Good = attribute_pass-Good (entities ms ov) (host_of ms ov) ov ms (start ms ov) (
    template_pass-Keyed (entities ms ov) ms (declare (host_desired (host_of ms ov)) [])
        (declare-Keyed (host_desired (host_of ms ov)) [] (tt, tt)),
    (tt, tt),
  )

  pub desired-Distinct :
      AllDistinct (λ t. t.slug) (desired ms ov).templates
      × AllDistinct (λ a. a.slug) (desired ms ov).attributes
  unfolding desired
  desired-Distinct =
      let (t, a) = made-Good in
      (
        sort-AllDistinct (λ t. t.slug) template_before (values (made ms ov).templates)
            (values-AllDistinct (λ t. t.slug) (made ms ov).templates t),
        sort-AllDistinct (λ a. a.slug) attribute_before
            (values (display_pass (label ms ov).display (made ms ov).attrs))
            (values-AllDistinct (λ a. a.slug)
              (display_pass (label ms ov).display (made ms ov).attrs)
              (display_pass-Keyed (label ms ov).display (made ms ov).attrs a)),
      )

  -- What `Resolve` returns is what it has made, and then it has found no problem.
  pub resolve-desired :
      (d : Desired) → resolve ms ov ≡ ok d → (d ≡ desired ms ov) × (problems ms ov ≡ [])
  unfolding resolve
  resolve-desired d h = elim (List-cases (problems ms ov)) [
    | inl n ↦ (ground (arith, n, h), n)
    | inr (p, ps, e) ↦ absurd (ground (arith, e, h))
  ]

  -- No two templates, and no two attributes, of the desired schema have the same slug.
  pub resolve-AllDistinct :
      (d : Desired)
      → resolve ms ov ≡ ok d
      → AllDistinct (λ t. t.slug) d.templates × AllDistinct (λ a. a.slug) d.attributes
  resolve-AllDistinct d h =
      subst (λ x. AllDistinct (λ t. t.slug) x.templates × AllDistinct (λ a. a.slug) x.attributes)
        (sym (resolve-desired d h).0) desired-Distinct
