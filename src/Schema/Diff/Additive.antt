-- ===== src/Schema/Diff/Additive.antt =====
-- internal/schema/diff.go: what a plan creates and binds.
use omnistat.Prelude.{
  true, false, not, ◌&&◌, Bytes, bytes_eq, bytes_lt, bytes_Eq, lookup, List, [], ◌∷◌, ◌++◌, map,
  none, some, ◌≡◌, ◌⊎◌, refl, ◌∙◌, arith, sort, All, All-append, All-sort, Bool-cases, Option-cases,
  inl, inr,
}
use omnistat.Manifest.{is_reference, is_list, DesiredTemplate, DesiredAttribute, Desired, contains}
use omnistat.Schema.Types.{
  CurrentAttribute, Current, type_of, create_template, create_attribute, add_list_option,
  bind_attribute, Action,
}
use omnistat.Schema.Diff.{
  bound_to, create_templates, Draft, add_option, plan_new, points_at_target, missing_options,
  plan_bind, plan_binds, plan_existing, plan_attribute, plan_attributes, template_lt, attribute_lt,
  bind_lt, diff,
}
use omnistat.Schema.Diff.Bound.{
  bound_by, ids_bound, contains-ids_bound, contains-append, contains-sort,
}

abbrev pub Additive : Current → Action → Type 0
Additive cur a = elim a.action_type [
  | create_template ↦ lookup a.template cur.templates ≡ none
  | create_attribute ↦ lookup a.attribute cur.attributes ≡ none
  | add_list_option ↦
      (lookup a.attribute cur.attributes ≡ none)
      ⊎ ((existing : CurrentAttribute) × (lookup a.attribute cur.attributes ≡ some existing)
          × (contains a.option existing.options ≡ false))
  | bind_attribute ↦
      (existing : CurrentAttribute) × (lookup a.attribute cur.attributes ≡ some existing)
      × (a.attribute_id ≡ existing.id)
      × ((t : Bytes)
          → bound_by cur.templates existing.id t ≡ true
          → contains t a.template_ids ≡ true)
]

module _ (cur : Current) where
  create_templates-Additive :
      (ts : List DesiredTemplate) → All (Additive cur) (create_templates cur ts)
  unfolding create_templates
  create_templates-Additive [] = tt
  create_templates-Additive (t ∷ ts) = elim (Option-cases (lookup t.slug cur.templates)) [
    | inl e ↦ rw (e, create_templates) (e, create_templates-Additive ts)
    | inr (c, e) ↦ rw (e, create_templates) (create_templates-Additive ts)
  ]

  new_options-Additive :
      (a : DesiredAttribute) (os : List Bytes)
      → lookup a.slug cur.attributes ≡ none
      → All (Additive cur) (map (add_option a []) os)
  new_options-Additive a [] e = tt
  new_options-Additive a (o ∷ os) e = (inl e, new_options-Additive a os e)

  missing_options-Additive :
      (a : DesiredAttribute) (existing : CurrentAttribute) (os : List Bytes)
      → lookup a.slug cur.attributes ≡ some existing
      → All (Additive cur) (missing_options a existing os)
  unfolding missing_options
  missing_options-Additive a existing [] e = tt
  missing_options-Additive a existing (o ∷ os) e =
      let ih = missing_options-Additive a existing os e in
      elim (Bool-cases (contains o existing.options)) [
        | inl h ↦ rw (h, missing_options) ih
        | inr h ↦ rw (h, missing_options) (inr (existing, e, h), ih)
      ]

  plan_bind-Additive :
      (a : DesiredAttribute) (existing : CurrentAttribute) (slug : Bytes)
      → lookup a.slug cur.attributes ≡ some existing
      → All (Additive cur) (plan_bind cur (ids_bound cur existing) a existing slug)
  unfolding plan_bind
  plan_bind-Additive a existing slug e = elim (Option-cases (lookup slug cur.templates)) [
    | inl h ↦
        rw (h, plan_bind) ((existing, e, refl, λ t b. contains-ids_bound cur existing t ∙ b), tt)
    | inr (tpl, h) ↦ elim (Bool-cases (contains tpl.id (ids_bound cur existing))) [
      | inl k ↦ rw (h, k, plan_bind) tt
      | inr k ↦
          rw (h, k, plan_bind)
            (
              (
                existing,
                e,
                refl,
                λ t b. ground (
                  arith,
                  contains-sort bytes_lt t (ids_bound cur existing ++ tpl.id ∷ []),
                  contains-append t (ids_bound cur existing) (tpl.id ∷ []),
                  contains-ids_bound cur existing t,
                  b,
                ),
              ),
              tt,
            )
    ]
  ]

  plan_binds-Additive :
      (a : DesiredAttribute) (existing : CurrentAttribute) (slugs : List Bytes)
      → lookup a.slug cur.attributes ≡ some existing
      → All (Additive cur) (plan_binds cur (ids_bound cur existing) a existing slugs)
  unfolding plan_binds
  plan_binds-Additive a existing [] e = tt
  plan_binds-Additive a existing (t ∷ ts) e =
      All-append (Additive cur) (plan_bind cur (ids_bound cur existing) a existing t)
        (plan_binds cur (ids_bound cur existing) a existing ts) (plan_bind-Additive a existing t e)
        (plan_binds-Additive a existing ts e)

  -- Every list of a draft holds additive actions.
  AllAdditive : Draft → Type 0
  AllAdditive d =
      All (Additive cur) d.actions
      × All (Additive cur) d.refs
      × All (Additive cur) d.options
      × All (Additive cur) d.binds

  plan_attribute-Additive :
      (a : DesiredAttribute) → AllAdditive (plan_attribute cur (bound_to cur.templates []) a)
  unfolding plan_attribute plan_new plan_existing AllAdditive
  plan_attribute-Additive a = elim (Option-cases (lookup a.slug cur.attributes)) [
    | inl e ↦ elim (Bool-cases (is_reference a.kind)) [
      | inl r ↦ rw (e, r, plan_attribute, plan_new) (tt, (e, tt), tt, tt)
      | inr r ↦
          rw (e, r, plan_attribute, plan_new) ((e, tt), tt, new_options-Additive a a.options e, tt)
    ]
    | inr (existing, e) ↦ elim (Bool-cases (bytes_eq existing.type_name (type_of a.kind))) [
      | inr h ↦ rw (e, h, plan_attribute, plan_existing) (tt, tt, tt, tt)
      | inl h ↦ elim (Bool-cases (is_reference a.kind && not (points_at_target cur a existing))) [
        | inl k ↦ rw (e, h, k, plan_attribute, plan_existing) (tt, tt, tt, tt)
        | inr k ↦
            let binds = plan_binds-Additive a existing a.templates e in
            elim (Bool-cases (is_list a.kind)) [
              | inl l ↦
                  rw (e, h, k, l, plan_attribute, plan_existing)
                    (tt, tt, missing_options-Additive a existing a.options e, binds)
              | inr l ↦ rw (e, h, k, l, plan_attribute, plan_existing) (tt, tt, tt, binds)
            ]
      ]
    ]
  ]

  plan_attributes-Additive :
      (attributes : List DesiredAttribute)
      → AllAdditive (plan_attributes cur (bound_to cur.templates []) attributes)
  unfolding plan_attributes AllAdditive
  plan_attributes-Additive [] = (tt, tt, tt, tt)
  plan_attributes-Additive (a ∷ rest) =
      let bound = bound_to cur.templates [] in
      let d = plan_attribute cur bound a in
      let e = plan_attributes cur bound rest in
      let (h, i, j, k) = plan_attribute-Additive a in
      let (h', i', j', k') = plan_attributes-Additive rest in
      (
        All-append (Additive cur) d.actions e.actions h h',
        All-append (Additive cur) d.refs e.refs i i',
        All-append (Additive cur) d.options e.options j j',
        All-append (Additive cur) d.binds e.binds k k',
      )

  -- A plan creates only what is absent, adds only absent options, and a bind keeps every template
  -- that the attribute is bound to.
  pub diff-Additive : (d : Desired) → All (Additive cur) (diff d cur).actions
  unfolding diff AllAdditive
  diff-Additive d =
      let out = plan_attributes cur (bound_to cur.templates []) (sort attribute_lt d.attributes) in
      let (h, i, j, k) = plan_attributes-Additive (sort attribute_lt d.attributes) in
      let sorted = All-sort bind_lt (Additive cur) out.binds k in
      let options = All-append (Additive cur) out.options (sort bind_lt out.binds) j sorted in
      let refs =
        All-append (Additive cur) out.refs (out.options ++ sort bind_lt out.binds) i options in
      All-append (Additive cur) (create_templates cur (sort template_lt d.templates))
        (out.actions ++ (out.refs ++ (out.options ++ sort bind_lt out.binds)))
        (create_templates-Additive (sort template_lt d.templates))
        (All-append (Additive cur) out.actions (out.refs ++ (out.options ++ sort bind_lt out.binds))
          h refs)
