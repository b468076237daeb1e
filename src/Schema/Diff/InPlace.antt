-- ===== src/Schema/Diff/InPlace.antt =====
-- internal/schema/diff.go: empty plans.
use omnistat.Prelude.{
  bytes_Eq, lookup, List, [], ◌∷◌, ◌++◌, none, ◌≡◌, ◌≢◌, ◌↔◌, refl, sort, sort-nil, All, All-sort,
  All-of-sort,
}
use omnistat.Manifest.{DesiredAttribute, Desired}
use omnistat.Schema.Types.{Current}
use omnistat.Schema.Diff.{
  bound_to, create_templates, Draft, both, plan_attribute, plan_attributes, template_lt,
  attribute_lt, bind_lt, conflict_lt, diff,
}
use omnistat.Schema.Diff.Holds.{
  Holds, IsEmpty, append-empty, create_templates-empty, plan_attribute-IsEmpty,
}

pub record InPlace (d : Desired) (cur : Current) : Type 0 where
  pub templates : All (λ t. lookup t.slug cur.templates ≢ none) d.templates
  pub attributes : All (Holds cur) d.attributes

both-IsEmpty : (d e : Draft) → IsEmpty (both d e) ↔ (IsEmpty d × IsEmpty e)
both-IsEmpty d e = (
  λ (a, r, o, b, c).
      let a' = append-empty d.actions e.actions a in
      let r' = append-empty d.refs e.refs r in
      let o' = append-empty d.options e.options o in
      let b' = append-empty d.binds e.binds b in
      let c' = append-empty d.conflicts e.conflicts c in
      ((a'.0, r'.0, o'.0, b'.0, c'.0), (a'.1, r'.1, o'.1, b'.1, c'.1)),
  λ ((a, r, o, b, c), (a', r', o', b', c')). (cc, cc, cc, cc, cc),
)

plan_attributes-IsEmpty :
    (cur : Current) (attributes : List DesiredAttribute)
    → IsEmpty (plan_attributes cur (bound_to cur.templates []) attributes)
      ↔ All (Holds cur) attributes
unfolding plan_attributes
plan_attributes-IsEmpty cur [] = (λ h. tt, λ h. (refl, refl, refl, refl, refl))
plan_attributes-IsEmpty cur (a ∷ rest) =
    let one = plan_attribute-IsEmpty cur a in
    let ih = plan_attributes-IsEmpty cur rest in
    let split =
      both-IsEmpty (plan_attribute cur (bound_to cur.templates []) a)
        (plan_attributes cur (bound_to cur.templates []) rest) in
    (λ h. let (x, y) = split.0 h in (one.0 x, ih.0 y), λ (x, y). split.1 (one.1 x, ih.1 y))

pub diff-InPlace :
    (d : Desired) (cur : Current)
    → (((diff d cur).actions ≡ []) × ((diff d cur).conflicts ≡ [])) ↔ InPlace d cur
unfolding diff
diff-InPlace d cur =
    let out = plan_attributes cur (bound_to cur.templates []) (sort attribute_lt d.attributes) in
    let templates = create_templates-empty cur (sort template_lt d.templates) in
    let attributes = plan_attributes-IsEmpty cur (sort attribute_lt d.attributes) in
    (
      λ (actions, conflicts).
          let (ts, rest) =
            append-empty (create_templates cur (sort template_lt d.templates))
              (out.actions ++ (out.refs ++ (out.options ++ sort bind_lt out.binds))) actions in
          let (cs, rest') =
            append-empty out.actions (out.refs ++ (out.options ++ sort bind_lt out.binds)) rest in
          let (rs, rest'') = append-empty out.refs (out.options ++ sort bind_lt out.binds) rest' in
          let (os, bs) = append-empty out.options (sort bind_lt out.binds) rest'' in
          record {
            templates =
                All-of-sort template_lt (λ t. lookup t.slug cur.templates ≢ none) d.templates
                  (templates.0 ts);
            attributes = All-of-sort attribute_lt (Holds cur) d.attributes (
                attributes.0 (
                  cs,
                  rs,
                  os,
                  sort-nil bind_lt out.binds bs,
                  sort-nil conflict_lt out.conflicts conflicts,
                ));
          },
      λ h.
          let ts = templates.1 (
            All-sort template_lt (λ t. lookup t.slug cur.templates ≢ none) d.templates
              h.templates) in
          let (cs, rs, os, bs, ks) =
            attributes.1 (All-sort attribute_lt (Holds cur) d.attributes h.attributes) in
          (rw (ts, cs, rs, os, bs) (unfold sort in refl), rw ks (unfold sort in refl)),
    )
