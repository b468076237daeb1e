-- ===== src/Schema/Apply/Creations.antt =====
-- internal/schema/diff.go: the creations of a plan.
use omnistat.Prelude.{
  ℕ, ◌+◌, ◌≤◌, Bool, true, false, ◌&&◌, Bytes, codes, bytes_eq, bytes_Eq, bytes_lt, lookup, List,
  [], ◌∷◌, ◌++◌, map, ◌≡◌, refl, arith, sort, Option-cases, inl, inr, count_if, count_if-append,
  count_if-sort,
}
use omnistat.Manifest.{DesiredTemplate, DesiredAttribute, Desired}
use omnistat.Schema.Types.{
  CurrentAttribute, Current, ActionType, create_template, create_attribute, Action, slug_of,
}
use omnistat.Schema.Diff.{
  or_nothing, bound_to, create_templates, Draft, add_option, plan_new, missing_options, plan_bind,
  plan_binds, plan_existing, plan_attribute, plan_attributes, template_lt, attribute_lt, bind_lt,
  diff,
}
use omnistat.Schema.Apply.{action_name, action_key}

unfoldable pub is_create : ActionType → Bool
is_create create_template = true
is_create create_attribute = true
is_create _ = false

abbrev pub creation : Bytes → Action → Bool
creation k a = is_create a.action_type && bytes_eq (action_key a) k

-- The creations of a list of actions that have the key.
abbrev pub creations : Bytes → List Action → ℕ
creations k actions = count_if (creation k) actions

abbrev pub template_key : DesiredTemplate → Bytes
template_key t = codes "create_template" ++ codes " " ++ t.slug

abbrev pub attribute_key : DesiredAttribute → Bytes
attribute_key a = codes "create_attribute" ++ codes " " ++ a.slug

abbrev pub template_has : Bytes → DesiredTemplate → Bool
template_has k t = bytes_eq (template_key t) k

abbrev pub attribute_has : Bytes → DesiredAttribute → Bool
attribute_has k a = bytes_eq (attribute_key a) k

module _ (cur : Current) (k : Bytes) where
  create_templates-creations :
      (ts : List DesiredTemplate)
      → creations k (create_templates cur ts) ≤ count_if (template_has k) ts
  unfolding create_templates count_if action_key action_name slug_of is_create
  create_templates-creations [] = omega arith
  create_templates-creations (t ∷ ts) = ground (arith, create_templates-creations ts)

  new_options-creations :
      (a : DesiredAttribute) (os : List Bytes) → creations k (map (add_option a []) os) ≡ 0
  unfolding count_if is_create
  new_options-creations a [] = refl
  new_options-creations a (o ∷ os) = new_options-creations a os

  missing_options-creations :
      (a : DesiredAttribute) (existing : CurrentAttribute) (os : List Bytes)
      → creations k (missing_options a existing os) ≡ 0
  unfolding count_if is_create missing_options
  missing_options-creations a existing [] = refl
  missing_options-creations a existing (o ∷ os) =
      ground (arith, missing_options-creations a existing os)

  plan_bind-creations :
      (a : DesiredAttribute) (existing : CurrentAttribute) (ids : List Bytes) (slug : Bytes)
      → creations k (plan_bind cur ids a existing slug) ≡ 0
  unfolding count_if is_create plan_bind
  plan_bind-creations a existing ids slug = ground arith

  plan_binds-creations :
      (a : DesiredAttribute) (existing : CurrentAttribute) (ids slugs : List Bytes)
      → creations k (plan_binds cur ids a existing slugs) ≡ 0
  unfolding count_if plan_binds
  plan_binds-creations a existing ids [] = refl
  plan_binds-creations a existing ids (t ∷ ts) = ground (
    arith,
    count_if-append (creation k) (plan_bind cur ids a existing t)
        (plan_binds cur ids a existing ts),
    plan_bind-creations a existing ids t,
    plan_binds-creations a existing ids ts,
  )

  -- The creations of a draft.
  abbrev drafted : Draft → ℕ
  drafted d =
      creations k d.actions + (creations k d.refs + (creations k d.options + creations k d.binds))

  plan_attribute-creations :
      (a : DesiredAttribute)
      → drafted (plan_attribute cur (bound_to cur.templates []) a)
        ≤ count_if (attribute_has k) (a ∷ [])
  unfolding plan_attribute plan_new plan_existing count_if is_create action_key action_name slug_of
  plan_attribute-creations a = elim (Option-cases (lookup a.slug cur.attributes)) [
    | inl e ↦ ground (arith, e, new_options-creations a a.options)
    | inr (existing, e) ↦ ground (
      arith,
      e,
      missing_options-creations a existing a.options,
      plan_binds-creations a existing
          (sort bytes_lt (or_nothing (lookup existing.id (bound_to cur.templates [])))) a.templates,
    )
  ]

  plan_attributes-creations :
      (attributes : List DesiredAttribute)
      → drafted (plan_attributes cur (bound_to cur.templates []) attributes)
        ≤ count_if (attribute_has k) attributes
  unfolding plan_attributes count_if
  plan_attributes-creations [] = omega arith
  plan_attributes-creations (a ∷ rest) =
      let d = plan_attribute cur (bound_to cur.templates []) a in
      let e = plan_attributes cur (bound_to cur.templates []) rest in
      let one = plan_attribute-creations a in
      let ih = plan_attributes-creations rest in
      let actions = count_if-append (creation k) d.actions e.actions in
      let refs = count_if-append (creation k) d.refs e.refs in
      let options = count_if-append (creation k) d.options e.options in
      let binds = count_if-append (creation k) d.binds e.binds in
      ground (arith, one, ih, actions, refs, options, binds)

  -- The creations of the key are no more than the desired templates and attributes that have it.
  pub diff-creations :
      (d : Desired)
      → creations k (diff d cur).actions
        ≤ count_if (template_has k) d.templates + count_if (attribute_has k) d.attributes
  unfolding diff
  diff-creations d =
      let out = plan_attributes cur (bound_to cur.templates []) (sort attribute_lt d.attributes) in
      let c = creation k in
      omega (
        arith,
        create_templates-creations (sort template_lt d.templates),
        plan_attributes-creations (sort attribute_lt d.attributes),
        count_if-sort (template_has k) template_lt d.templates,
        count_if-sort (attribute_has k) attribute_lt d.attributes,
        count_if-append c (create_templates cur (sort template_lt d.templates))
            (out.actions ++ (out.refs ++ (out.options ++ sort bind_lt out.binds))),
        count_if-append c out.actions (out.refs ++ (out.options ++ sort bind_lt out.binds)),
        count_if-append c out.refs (out.options ++ sort bind_lt out.binds),
        count_if-append c out.options (sort bind_lt out.binds),
        count_if-sort c bind_lt out.binds,
      )
