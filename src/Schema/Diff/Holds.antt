-- ===== src/Schema/Diff/Holds.antt =====
-- internal/schema/diff.go: what has to hold of a template or an attribute so that it needs no action.
use omnistat.Prelude.{
  true, not, ◌&&◌, Bytes, bytes_eq, bytes_eq_iff, bytes_Eq, lookup, List, [], ◌∷◌, ◌++◌, none, some,
  ◌≡◌, ◌≢◌, ◌↔◌, refl, subst, arith, All, Bool-cases, Option-cases, inl, inr,
}
use omnistat.Manifest.{is_reference, is_list, DesiredTemplate, DesiredAttribute, contains}
use omnistat.Schema.Types.{CurrentTemplate, CurrentAttribute, Current, type_of}
use omnistat.Schema.Diff.{
  bound_to, create_templates, Draft, plan_new, points_at_target, missing_options, plan_bind,
  plan_binds, plan_existing, plan_attribute,
}
use omnistat.Schema.Diff.Bound.{bound_by, ids_bound, contains-ids_bound}

abbrev pub Listed : Current → CurrentAttribute → Bytes → Type 0
Listed cur existing slug =
    (tpl : CurrentTemplate) × (lookup slug cur.templates ≡ some tpl)
    × (bound_by cur.templates existing.id tpl.id ≡ true)

-- An attribute is there, of the right type, with its options and in its templates.
pub record Holds (cur : Current) (a : DesiredAttribute) : Type 0 where
  pub existing : CurrentAttribute
  pub found : lookup a.slug cur.attributes ≡ some existing
  pub typed : existing.type_name ≡ type_of a.kind
  pub pointed : is_reference a.kind ≡ true → points_at_target cur a existing ≡ true
  pub optioned : is_list a.kind ≡ true → All (λ o. contains o existing.options ≡ true) a.options
  pub listed : All (Listed cur existing) a.templates

abbrev pub IsEmpty : Draft → Type 0
IsEmpty d =
    (d.actions ≡ []) × (d.refs ≡ []) × (d.options ≡ []) × (d.binds ≡ []) × (d.conflicts ≡ [])

pub append-empty {ℓ} : {A : Type ℓ} (xs ys : List A) → xs ++ ys ≡ [] → (xs ≡ []) × (ys ≡ [])
append-empty [] ys h = (refl, h)
append-empty (x ∷ xs) ys h = cc

pub create_templates-empty :
    (cur : Current) (ts : List DesiredTemplate)
    → (create_templates cur ts ≡ []) ↔ All (λ t. lookup t.slug cur.templates ≢ none) ts
unfolding create_templates
create_templates-empty cur [] = (λ h. tt, λ h. refl)
create_templates-empty cur (t ∷ ts) = elim (Option-cases (lookup t.slug cur.templates)) [
  | inl e ↦ (λ h. ground (arith, e), λ h. absurd (h.0 e))
  | inr (c, e) ↦
      let ih = create_templates-empty cur ts in
      rw (e, create_templates) (λ h. ((λ k. cc), ih.0 h), λ h. ih.1 h.1)
]

missing_options-empty :
    (a : DesiredAttribute) (existing : CurrentAttribute) (os : List Bytes)
    → (missing_options a existing os ≡ []) ↔ All (λ o. contains o existing.options ≡ true) os
unfolding missing_options
missing_options-empty a existing [] = (λ h. tt, λ h. refl)
missing_options-empty a existing (o ∷ os) = elim (Bool-cases (contains o existing.options)) [
  | inl e ↦
      let ih = missing_options-empty a existing os in
      rw (e, missing_options) (λ h. (refl, ih.0 h), λ h. ih.1 h.1)
  | inr e ↦ (λ h. ground (arith, e), λ h. absurd (ground (arith, h.0, e)))
]

plan_bind-empty :
    (cur : Current) (a : DesiredAttribute) (existing : CurrentAttribute) (slug : Bytes)
    → (plan_bind cur (ids_bound cur existing) a existing slug ≡ []) ↔ Listed cur existing slug
unfolding plan_bind
plan_bind-empty cur a existing slug = elim (Option-cases (lookup slug cur.templates)) [
  | inl e ↦ (λ h. ground (arith, e), λ (tpl, f, b). ground (arith, e, f))
  | inr (tpl, e) ↦
      let same = contains-ids_bound cur existing tpl.id in
      (λ h. (tpl, e, ground (arith, e, same)), λ (tpl', f, b). ground (arith, e, f, same, b))
]

plan_binds-empty :
    (cur : Current) (a : DesiredAttribute) (existing : CurrentAttribute) (slugs : List Bytes)
    → (plan_binds cur (ids_bound cur existing) a existing slugs ≡ [])
      ↔ All (Listed cur existing) slugs
unfolding plan_binds
plan_binds-empty cur a existing [] = (λ h. tt, λ h. refl)
plan_binds-empty cur a existing (t ∷ ts) =
    let one = plan_bind-empty cur a existing t in
    let ih = plan_binds-empty cur a existing ts in
    (
      λ h.
          let both_empty =
            append-empty (plan_bind cur (ids_bound cur existing) a existing t)
              (plan_binds cur (ids_bound cur existing) a existing ts) h in
          (one.0 both_empty.0, ih.0 both_empty.1),
      λ (h, hs). ground (arith, one.1 h, ih.1 hs),
    )

-- What an existing attribute needs; the fields of `Holds` after `found`.
abbrev Fits : Current → DesiredAttribute → CurrentAttribute → Type 0
Fits cur a existing =
    (existing.type_name ≡ type_of a.kind)
    × (is_reference a.kind ≡ true → points_at_target cur a existing ≡ true)
    × (is_list a.kind ≡ true → All (λ o. contains o existing.options ≡ true) a.options)
    × All (Listed cur existing) a.templates

plan_existing-IsEmpty :
    (cur : Current) (a : DesiredAttribute) (existing : CurrentAttribute)
    → IsEmpty (plan_existing cur (bound_to cur.templates []) a existing) ↔ Fits cur a existing
unfolding plan_existing
plan_existing-IsEmpty cur a existing =
    let options = missing_options-empty a existing a.options in
    let binds = plan_binds-empty cur a existing a.templates in
    let types = bytes_eq_iff existing.type_name (type_of a.kind) in
    elim (Bool-cases (bytes_eq existing.type_name (type_of a.kind))) [
      | inr e ↦
          rw (e, plan_existing)
            (λ (_, _, _, _, h). cc, λ (h, _, _, _). absurd (ground (arith, types.1 h, e)))
      | inl e ↦ elim (Bool-cases (is_reference a.kind && not (points_at_target cur a existing))) [
        | inl wrong ↦
            rw (e, wrong, plan_existing)
              (λ (_, _, _, _, h). cc, λ (_, p, _, _). absurd (ground (arith, wrong, p)))
        | inr right ↦
            rw (e, right, plan_existing)
              (
                λ (_, _, os, bs, _). (
                  types.0 e,
                  λ k. ground (arith, right, k),
                  λ k. options.0 (ground (arith, os, k)),
                  binds.0 bs,
                ),
                λ (_, _, os, bs). (
                  refl,
                  refl,
                  elim (Bool-cases (is_list a.kind)) [
                    | inl k ↦ ground (arith, k, options.1 (os k))
                    | inr k ↦ ground (arith, k)
                  ],
                  binds.1 bs,
                  refl,
                ),
              )
      ]
    ]

pub plan_attribute-IsEmpty :
    (cur : Current) (a : DesiredAttribute)
    → IsEmpty (plan_attribute cur (bound_to cur.templates []) a) ↔ Holds cur a
unfolding plan_attribute plan_new
plan_attribute-IsEmpty cur a = elim (Option-cases (lookup a.slug cur.attributes)) [
  | inl e ↦ elim (Bool-cases (is_reference a.kind)) [
    | inl r ↦
        rw (e, r, plan_attribute, plan_new)
          (λ (_, h, _, _, _). cc, λ h. absurd (ground (arith, e, h.found)))
    | inr r ↦
        rw (e, r, plan_attribute, plan_new)
          (λ (h, _, _, _, _). cc, λ h. absurd (ground (arith, e, h.found)))
  ]
  | inr (existing, e) ↦
      let fits = plan_existing-IsEmpty cur a existing in
      rw (e, plan_attribute)
        (
          λ h.
              let (t, p, o, l) = fits.0 h in
              record {
                existing = existing;
                found = e;
                typed = t;
                pointed = p;
                optioned = o;
                listed = l;
              },
          λ h.
              let same : h.existing ≡ existing = ground (arith, e, h.found) in
              fits.1 (subst (Fits cur a) same (h.typed, h.pointed, h.optioned, h.listed)),
        )
]
