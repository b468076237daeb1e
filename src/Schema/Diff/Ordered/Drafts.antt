-- ===== src/Schema/Diff/Ordered/Drafts.antt =====
-- internal/schema/diff.go: what the actions of the loop over the attributes need.
use omnistat.Prelude.{
  All-imp, true, false, not, ◌&&◌, Bytes, bytes_eq, bytes_eq_refl, bytes_lt, bytes_Eq, Map, lookup,
  List, [], ◌∷◌, map, none, ◌≡◌, ◌≢◌, refl, arith, sort, All, All-append, All-sort, Bool-cases,
  Option-cases, inl, inr, count_if,
}
use omnistat.Manifest.{contains, is_reference, is_list, DesiredAttribute}
use omnistat.Schema.Types.{CurrentAttribute, Current, type_of, Action}
use omnistat.Schema.Diff.{
  or_nothing, Draft, create, add_option, plan_new, points_at_target, missing_options, plan_bind,
  plan_binds, plan_existing, plan_attribute, plan_attributes,
}
use omnistat.Schema.Diff.Ordered.{
  makes_attribute, HasTemplate, HasAttribute, Ready, grow-HasAttribute, after-HasAttribute,
}

module _ (cur : Current) (x : List Action) where
  -- What an attribute refers to is there after the actions `x`.
  abbrev pub Points : DesiredAttribute → Type 0
  Points a =
      (is_reference a.kind ≡ true) → HasTemplate cur x a.target × HasAttribute cur x a.display

  -- So is the attribute itself, unless it is a reference.
  abbrev pub Known : DesiredAttribute → Type 0
  Known a =
      All (HasTemplate cur x) a.templates
      × Points a
      × ((is_reference a.kind ≡ false) → HasAttribute cur x a.slug)

  create-Ready :
      (a : DesiredAttribute)
      → All (HasTemplate cur x) a.templates
      → Points a
      → Ready cur x (create a)
  create-Ready a h p = (All-sort bytes_lt (HasTemplate cur x) a.templates h, p)

  new_options-Ready :
      (a : DesiredAttribute) (os : List Bytes)
      → HasAttribute cur x a.slug
      → All (Ready cur x) (map (add_option a []) os)
  new_options-Ready a [] h = tt
  new_options-Ready a (o ∷ os) h = (h, new_options-Ready a os h)

  missing_options-Ready :
      (a : DesiredAttribute) (existing : CurrentAttribute) (os : List Bytes)
      → HasAttribute cur x a.slug
      → All (Ready cur x) (missing_options a existing os)
  unfolding missing_options
  missing_options-Ready a existing [] h = tt
  missing_options-Ready a existing (o ∷ os) h =
      let ih = missing_options-Ready a existing os h in
      elim (Bool-cases (contains o existing.options)) [
        | inl e ↦ rw (e, missing_options) ih
        | inr e ↦ rw (e, missing_options) (h, ih)
      ]

  plan_bind-Ready :
      (ids : List Bytes) (a : DesiredAttribute) (existing : CurrentAttribute) (slug : Bytes)
      → lookup a.slug cur.attributes ≢ none
      → HasTemplate cur x slug
      → All (Ready cur x) (plan_bind cur ids a existing slug)
  unfolding plan_bind
  plan_bind-Ready ids a existing slug e h = elim (Option-cases (lookup slug cur.templates)) [
    | inl n ↦ rw (n, plan_bind) ((h, e), tt)
    | inr (tpl, s) ↦ elim (Bool-cases (contains tpl.id ids)) [
      | inl k ↦ rw (s, k, plan_bind) tt
      | inr k ↦ rw (s, k, plan_bind) ((h, e), tt)
    ]
  ]

  plan_binds-Ready :
      (ids : List Bytes) (a : DesiredAttribute) (existing : CurrentAttribute) (slugs : List Bytes)
      → lookup a.slug cur.attributes ≢ none
      → All (HasTemplate cur x) slugs
      → All (Ready cur x) (plan_binds cur ids a existing slugs)
  unfolding plan_binds
  plan_binds-Ready ids a existing [] e h = tt
  plan_binds-Ready ids a existing (t ∷ ts) e h =
      All-append (Ready cur x) (plan_bind cur ids a existing t) (plan_binds cur ids a existing ts)
        (plan_bind-Ready ids a existing t e h.0) (plan_binds-Ready ids a existing ts e h.1)

module _ (cur : Current) (bound : Map Bytes (List Bytes)) where
  -- An existing attribute is not created.
  plan_existing-actions :
      (a : DesiredAttribute) (existing : CurrentAttribute)
      → (plan_existing cur bound a existing).actions ≡ []
  unfolding plan_existing
  plan_existing-actions a existing =
      elim (Bool-cases (bytes_eq existing.type_name (type_of a.kind))) [
        | inr k ↦ rw (k, plan_existing) refl
        | inl k ↦ elim (Bool-cases (is_reference a.kind && not (points_at_target cur a existing))) [
          | inl b ↦ rw (k, b, plan_existing) refl
          | inr b ↦ rw (k, b, plan_existing) refl
        ]
      ]

  -- Attributes that are no references are created as soon as their templates are there.
  plan_attribute-actions :
      (x : List Action) (a : DesiredAttribute)
      → All (HasTemplate cur x) a.templates
      → All (Ready cur x) (plan_attribute cur bound a).actions
  unfolding plan_attribute plan_new plan_existing
  plan_attribute-actions x a h = elim (Option-cases (lookup a.slug cur.attributes)) [
    | inr (existing, e) ↦ rw (e, plan_attribute) (rw (plan_existing-actions a existing) tt)
    | inl n ↦ elim (Bool-cases (is_reference a.kind)) [
      | inl r ↦ rw (n, r, plan_attribute, plan_new) tt
      | inr r ↦
          rw (n, r, plan_attribute, plan_new)
            (create-Ready cur x a h (λ q. absurd (ground (arith, r, q))), tt)
    ]
  ]

  pub plan_attributes-actions :
      (x : List Action) (l : List DesiredAttribute)
      → All (λ a. All (HasTemplate cur x) a.templates) l
      → All (Ready cur x) (plan_attributes cur bound l).actions
  unfolding plan_attributes
  plan_attributes-actions x [] h = tt
  plan_attributes-actions x (a ∷ rest) h =
      All-append (Ready cur x) (plan_attribute cur bound a).actions
        (plan_attributes cur bound rest).actions (plan_attribute-actions x a h.0)
        (plan_attributes-actions x rest h.1)

  -- The references, options and bindings of a draft are ready.
  abbrev pub RestReady : List Action → Draft → Type 0
  RestReady x d = All (Ready cur x) d.refs × All (Ready cur x) d.options × All (Ready cur x) d.binds

  plan_attribute-Ready :
      (x : List Action) (a : DesiredAttribute)
      → Known cur x a
      → RestReady x (plan_attribute cur bound a)
  unfolding plan_attribute plan_new plan_existing
  plan_attribute-Ready x a (h, p, s) = elim (Option-cases (lookup a.slug cur.attributes)) [
    | inl n ↦ elim (Bool-cases (is_reference a.kind)) [
      | inl r ↦ rw (n, r, plan_attribute, plan_new) ((create-Ready cur x a h p, tt), tt, tt)
      | inr r ↦
          rw (n, r, plan_attribute, plan_new) (tt, new_options-Ready cur x a a.options (s r), tt)
    ]
    | inr (existing, e) ↦
        let there : lookup a.slug cur.attributes ≢ none = λ q. absurd (ground (arith, e, q)) in
        elim (Bool-cases (bytes_eq existing.type_name (type_of a.kind))) [
          | inr k ↦ rw (e, k, plan_attribute, plan_existing) (tt, tt, tt)
          | inl k ↦
              elim (Bool-cases (is_reference a.kind && not (points_at_target cur a existing))) [
                | inl b ↦ rw (e, k, b, plan_attribute, plan_existing) (tt, tt, tt)
                | inr b ↦
                    let ids = sort bytes_lt (or_nothing (lookup existing.id bound)) in
                    let binds = plan_binds-Ready cur x ids a existing a.templates there h in
                    elim (Bool-cases (is_list a.kind)) [
                      | inl l ↦
                          rw (e, k, b, l, plan_attribute, plan_existing)
                            (
                              tt,
                              missing_options-Ready cur x a existing a.options (inl there),
                              binds,
                            )
                      | inr l ↦ rw (e, k, b, l, plan_attribute, plan_existing) (tt, tt, binds)
                    ]
              ]
        ]
  ]

  pub plan_attributes-Ready :
      (x : List Action) (l : List DesiredAttribute)
      → All (Known cur x) l
      → RestReady x (plan_attributes cur bound l)
  unfolding plan_attributes
  plan_attributes-Ready x [] h = (tt, tt, tt)
  plan_attributes-Ready x (a ∷ rest) h =
      let d = plan_attribute cur bound a in
      let e = plan_attributes cur bound rest in
      let (r, o, b) = plan_attribute-Ready x a h.0 in
      let (r', o', b') = plan_attributes-Ready x rest h.1 in
      (
        All-append (Ready cur x) d.refs e.refs r r',
        All-append (Ready cur x) d.options e.options o o',
        All-append (Ready cur x) d.binds e.binds b b',
      )

  plan_attribute-HasAttribute :
      (a : DesiredAttribute)
      → is_reference a.kind ≡ false
      → HasAttribute cur (plan_attribute cur bound a).actions a.slug
  unfolding plan_attribute plan_new count_if makes_attribute
  plan_attribute-HasAttribute a r = elim (Option-cases (lookup a.slug cur.attributes)) [
    | inr (existing, e) ↦ inl (λ q. absurd (ground (arith, e, q)))
    | inl n ↦
        rw (n, r, plan_attribute, plan_new)
          (inr (rw (count_if, makes_attribute, bytes_eq_refl a.slug) (omega arith)))
  ]

  -- After the actions an attribute is there, unless it is a reference.
  pub plan_attributes-HasAttribute :
      (l : List DesiredAttribute)
      → All
          (λ a.
            (is_reference a.kind ≡ false)
            → HasAttribute cur (plan_attributes cur bound l).actions a.slug)
          l
  unfolding plan_attributes
  plan_attributes-HasAttribute [] = tt
  plan_attributes-HasAttribute (a ∷ rest) =
      let d = plan_attribute cur bound a in
      let e = plan_attributes cur bound rest in
      (
        λ r. grow-HasAttribute cur d.actions e.actions a.slug (plan_attribute-HasAttribute a r),
        All-imp rest (λ b h r. after-HasAttribute cur d.actions e.actions b.slug (h r))
            (plan_attributes-HasAttribute rest),
      )
