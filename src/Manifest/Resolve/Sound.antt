-- ===== src/Manifest/Resolve/Sound.antt =====
-- internal/manifest/resolve.go, `Resolve`: where the attributes sit and what the references show.
use omnistat.Prelude.{
  ◌≤◌, Bool, true, Bytes, bytes_eq, bytes_eq_iff, bytes_Eq, Map, lookup, insert, lookup-insert,
  List, [], ◌∷◌, none, some, ◌≡◌, refl, sym, ap, ◌∙◌, subst, inl, inr, Bool-cases, Option-cases,
  arith, All, All-sort, sort, count_if, count_if-sort,
}
use omnistat.Prelude.Keyed.{values, count-values}
use omnistat.Settle.{ok}
use omnistat.Manifest.{Desired, DesiredTemplate, DesiredAttribute}
use omnistat.Manifest.Validate.{Manifest, Attribute}
use omnistat.Manifest.Resolve.{
  Overrides, ModuleOverride, Problem, module_override, attribute_override,
}
use omnistat.Manifest.Resolve.Templates.{Entities, declare}
use omnistat.Manifest.Resolve.Attributes.{
  Made, add_attribute, add_attributes, add_desired, attribute_pass, declare_named,
  desired_attribute, display_pass, named_by_slug, place, attribute_id, with_display,
}
use omnistat.Manifest.Resolve.Whole.{
  attribute_before, desired, entities, find_first, host_of, label, made, resolve, start,
  template_at, template_before,
}
use omnistat.Manifest.Resolve.Keyed.{made-Good, resolve-desired}

-- An attribute sits on one template, which is declared.
abbrev Seated : Map Bytes DesiredTemplate → DesiredAttribute → Type 0
Seated ts d =
    (tpl : Bytes) × (t : DesiredTemplate) × (d.templates ≡ tpl ∷ []) × (lookup tpl ts ≡ some t)

-- What is declared stays.
abbrev Keeps : Map Bytes DesiredTemplate → Map Bytes DesiredTemplate → Type 0
Keeps ts ts' = (k : Bytes) (t : DesiredTemplate) → lookup k ts ≡ some t → lookup k ts' ≡ some t

declare-Keeps : (u : DesiredTemplate) (ts : Map Bytes DesiredTemplate) → Keeps ts (declare u ts)
unfolding declare
declare-Keeps u ts k t h = elim (Option-cases (lookup u.slug ts)) [
  | inr (w, e) ↦ rw (e, declare) h
  | inl n ↦
      rw (n, declare)
        (lookup-insert u.slug k u ts ∙ elim (Bool-cases (bytes_eq u.slug k)) [
          | inl b ↦
              let same = (bytes_eq_iff u.slug k).0 b in
              absurd
                (let bad : none ≡ some t = sym (subst (λ x. lookup x ts ≡ none) same n) ∙ h in cc)
          | inr b ↦ rw b h
        ])
]

declare-there :
    (u : DesiredTemplate) (ts : Map Bytes DesiredTemplate)
    → (t : DesiredTemplate) × (lookup u.slug (declare u ts) ≡ some t)
unfolding declare
declare-there u ts = elim (Option-cases (lookup u.slug ts)) [
  | inr (w, e) ↦ (w, rw (e, declare) e)
  | inl n ↦ (
    u,
    rw (n, declare)
        (lookup-insert u.slug u.slug u ts ∙ rw ((bytes_eq_iff u.slug u.slug).1 refl) refl),
  )
]

All-Seated :
    (ts ts' : Map Bytes DesiredTemplate) (m : Map Bytes DesiredAttribute)
    → Keeps ts ts'
    → All (λ e. Seated ts e.1) m
    → All (λ e. Seated ts' e.1) m
All-Seated ts ts' [] k h = tt
All-Seated ts ts' (e ∷ m) k h =
    let (tpl, t, one, there) = h.0 in ((tpl, t, one, k tpl t there), All-Seated ts ts' m k h.1)

pub insert-All :
    (P : DesiredAttribute → Type 0) (k : Bytes) (d : DesiredAttribute)
    (m : Map Bytes DesiredAttribute)
    → P d
    → All (λ e. P e.1) m
    → All (λ e. P e.1) (insert k d m)
unfolding insert
insert-All P k d [] p h = (p, tt)
insert-All P k d ((j, w) ∷ m) p h = elim (Bool-cases (bytes_eq j k)) [
  | inl b ↦ rw b (p, h.1)
  | inr b ↦ rw b (h.0, insert-All P k d m p h.1)
]

abbrev AllSeated : Made → Type 0
AllSeated s = All (λ e. Seated s.templates e.1) s.attrs

add_desired-Seated :
    (id tpl : Bytes) (d : DesiredAttribute) (ps : List Problem) (s : Made)
    → d.templates ≡ tpl ∷ []
    → AllSeated s
    → AllSeated (add_desired id d ps s)
unfolding add_desired declare_named
add_desired-Seated id tpl d ps s one h =
    let ts = declare (named_by_slug tpl) s.templates in
    let (t, there) = declare-there (named_by_slug tpl) s.templates in
    let named : declare_named d.templates s.templates ≡ ts = rw one refl in
    let kept =
      All-Seated s.templates ts s.attrs (declare-Keeps (named_by_slug tpl) s.templates) h in
    elim (Option-cases (lookup d.slug s.owner)) [
      | inl n ↦
          rw (n, add_desired)
            (subst (λ x. All (λ e. Seated x e.1) (insert d.slug d s.attrs)) (sym named)
              (insert-All (Seated ts) d.slug d s.attrs (tpl, t, one, there) kept))
      | inr (prev, e) ↦
          rw (e, add_desired) (subst (λ x. All (λ e. Seated x e.1) s.attrs) (sym named) kept)
    ]

add_attributes-Seated :
    (e : Entities) (host name : Bytes) (mo : ModuleOverride) (l : List Attribute) (s : Made)
    → AllSeated s
    → AllSeated (add_attributes e host name mo l s)
unfolding add_attributes add_attribute
add_attributes-Seated e host name mo [] s h = h
add_attributes-Seated e host name mo (a ∷ l) s h =
    let o = attribute_override (lookup a.key mo.attributes) in
    let p = place e host name o.template mo.template a in
    add_attributes-Seated e host name mo l (add_attribute e host name mo a s) (
      add_desired-Seated (attribute_id name a.key) p.template (desired_attribute host name o p a)
        p.problems s (unfold desired_attribute in refl) h)

attribute_pass-Seated :
    (e : Entities) (host : Bytes) (ov : Overrides) (ms : List Manifest) (s : Made)
    → AllSeated s
    → AllSeated (attribute_pass e host ov ms s)
unfolding attribute_pass
attribute_pass-Seated e host ov [] s h = h
attribute_pass-Seated e host ov (m ∷ ms) s h =
    let mo = module_override (lookup m.module_name ov.modules) in
    attribute_pass-Seated e host ov ms (add_attributes e host m.module_name mo m.attributes s)
      (add_attributes-Seated e host m.module_name mo m.attributes s h)

pub with_display-templates :
    (l : Bytes) (d : DesiredAttribute) → (with_display l d).templates ≡ d.templates
unfolding with_display
with_display-templates l d = ground arith

display_pass-Seated :
    (l : Bytes) (ts : Map Bytes DesiredTemplate) (m : Map Bytes DesiredAttribute)
    → All (λ e. Seated ts e.1) m
    → All (λ e. Seated ts e.1) (display_pass l m)
unfolding display_pass
display_pass-Seated l ts [] h = tt
display_pass-Seated l ts ((k, d) ∷ m) h =
    let (tpl, t, one, there) = h.0 in
    ((tpl, t, with_display-templates l d ∙ one, there), display_pass-Seated l ts m h.1)

pub find_first-some :
    {A : Type 0} (test : A → Bool) (xs : List A)
    → 1 ≤ count_if test xs
    → (x : A) × (find_first test xs ≡ some x) × (test x ≡ true)
unfolding find_first count_if
find_first-some test [] h = absurd (omega (arith, h))
find_first-some test (x ∷ xs) h = elim (Bool-cases (test x)) [
  | inl e ↦ (x, rw e refl, e)
  | inr e ↦
      let (y, found, ty) = find_first-some test xs (ground (arith, e, h)) in (y, rw e found, ty)
]

lookup-key :
    (k : Bytes) (t : DesiredTemplate) (ts : Map Bytes DesiredTemplate)
    → All (λ e. e.1.slug ≡ e.0) ts
    → lookup k ts ≡ some t
    → t.slug ≡ k
unfolding lookup
lookup-key k t [] h e = cc
lookup-key k t ((j, u) ∷ ts) h e = elim (Bool-cases (bytes_eq j k)) [
  | inl b ↦
      let same : u ≡ t = ground (arith, b, e) in
      ap (λ w. w.slug) (sym same) ∙ (h.0 ∙ (bytes_eq_iff j k).0 b)
  | inr b ↦ lookup-key k t ts h.1 (ground (arith, b, e))
]

-- An attribute sits on one template, which is among those of the desired schema.
abbrev pub SitsIn : Desired → DesiredAttribute → Type 0
SitsIn d a =
    (tpl : Bytes) × (t : DesiredTemplate) × (a.templates ≡ tpl ∷ [])
    × (template_at d tpl ≡ some t)
    × (t.slug ≡ tpl)

module _ (ms : List Manifest) (ov : Overrides) where
  made-Seated : AllSeated (made ms ov)
  unfolding made start
  made-Seated = attribute_pass-Seated (entities ms ov) (host_of ms ov) ov ms (start ms ov) tt

  Seated-SitsIn :
      (a : DesiredAttribute) → Seated (made ms ov).templates a → SitsIn (desired ms ov) a
  unfolding template_at desired
  Seated-SitsIn a (tpl, t, one, there) =
      let ts = (made ms ov).templates in
      let test : DesiredTemplate → Bool = λ u. bytes_eq u.slug tpl in
      let named = lookup-key tpl t ts (made-Good ms ov).0.1 there in
      let counted =
        count-values (λ u. u.slug) test tpl t ts there ((bytes_eq_iff t.slug tpl).1 named) in
      let (u, found, hit) =
        find_first-some test (sort template_before (values ts))
          (rw (count_if-sort test template_before (values ts)) counted) in
      (tpl, u, one, found, (bytes_eq_iff u.slug tpl).0 hit)

  All-SitsIn :
      (m : Map Bytes DesiredAttribute)
      → All (λ e. Seated (made ms ov).templates e.1) m
      → All (SitsIn (desired ms ov)) (values m)
  All-SitsIn [] h = tt
  All-SitsIn (e ∷ m) h = (Seated-SitsIn e.1 h.0, All-SitsIn m h.1)

  -- Every attribute of the desired schema sits on one template, which is in the desired schema.
  pub resolve-SitsIn : (d : Desired) → resolve ms ov ≡ ok d → All (SitsIn d) d.attributes
  unfolding desired
  resolve-SitsIn d h =
      let l = (label ms ov).display in
      let all = display_pass-Seated l (made ms ov).templates (made ms ov).attrs made-Seated in
      subst (λ x. All (SitsIn x) x.attributes) (sym (resolve-desired ms ov d h).0)
        (All-sort attribute_before (SitsIn (desired ms ov))
          (values (display_pass l (made ms ov).attrs))
          (All-SitsIn (display_pass l (made ms ov).attrs) all))
