-- ===== src/Schema/Diff/Ordered/Grounded.antt =====
-- internal/schema/diff.go: the plan for a desired schema in which everything is found.
use omnistat.Prelude.{
  All-imp, All-both, Bool, true, false, Bytes, bytes_eq, bytes_eq_iff, bytes_eq_refl, bytes_Eq,
  lookup, List, [], ◌∷◌, ◌++◌, some, ◌≡◌, refl, sym, subst, arith, sort, All, All-sort, All-of-sort,
  All-append, Bool-cases, Option-cases, inl, inr, count_if,
}
use omnistat.Manifest.{Desired, DesiredTemplate, DesiredAttribute, is_reference}
use omnistat.Settle.{ok}
use omnistat.Manifest.Validate.{Manifest, validate}
use omnistat.Manifest.Resolve.{Overrides}
use omnistat.Manifest.Resolve.Whole.{find_first, resolve, template_at}
use omnistat.Manifest.Resolve.Moored.{Shows, Grounded, resolve-Grounded}
use omnistat.Manifest.Resolve.Complete.Found.{find_first-All}
use omnistat.Schema.Types.{Current, create_template, blank, Action}
use omnistat.Schema.Diff.{
  bound_to, create_templates, plan_attributes, template_lt, attribute_lt, bind_lt, diff,
}
use omnistat.Schema.Diff.Ordered.{
  makes_template, HasTemplate, after-HasTemplate, HasAttribute, Ready, Ordered, grow-HasTemplate,
  after-HasAttribute, All-Ordered, append-Ordered, create_templates-Ready,
}
use omnistat.Schema.Diff.Ordered.Drafts.{
  Known, Points, plan_attributes-actions, plan_attributes-Ready, plan_attributes-HasAttribute,
}

find_first-hit :
    {A : Type 0} (test : A → Bool) (xs : List A) (b : A)
    → find_first test xs ≡ some b
    → test b ≡ true
unfolding find_first
find_first-hit test [] b e = absurd (ground (arith, e))
find_first-hit test (x ∷ xs) b e = elim (Bool-cases (test x)) [
  | inl k ↦ let same : x ≡ b = ground (arith, k, e) in subst (λ z. test z ≡ true) same k
  | inr k ↦ find_first-hit test xs b (ground (arith, k, e))
]

-- The creation of a template.
abbrev new : DesiredTemplate → Action
new t = record (blank create_template) {
  template = t.slug;
  name = t.name;
  description = t.description;
}

module _ (cur : Current) where
  -- Templates that are missing are created.
  create_templates-HasTemplate :
      (ts : List DesiredTemplate) → All (λ t. HasTemplate cur (create_templates cur ts) t.slug) ts
  unfolding create_templates count_if makes_template
  create_templates-HasTemplate [] = tt
  create_templates-HasTemplate (t ∷ ts) =
      let P : List Action → Type 0 = λ z. All (λ u. HasTemplate cur z u.slug) (t ∷ ts) in
      let rest = create_templates cur ts in
      let ih = create_templates-HasTemplate ts in
      elim (Option-cases (lookup t.slug cur.templates)) [
        | inr (c, e) ↦
            let same : rest ≡ create_templates cur (t ∷ ts) = rw (e, create_templates) refl in
            subst P same (inl (λ q. absurd (ground (arith, e, q))), ih)
        | inl n ↦
            let grown : new t ∷ rest ≡ create_templates cur (t ∷ ts) =
              rw (n, create_templates) refl in
            subst P grown (
              inr (rw (count_if, makes_template, bytes_eq_refl t.slug) (omega arith)),
              All-imp ts (λ u h. after-HasTemplate cur (new t ∷ []) rest u.slug h) ih,
            )
      ]

  -- The host template and the template of each attribute are found among the desired ones.
  module _ (d : Desired) (g : Grounded d) (x : List Action)
      (templates_there : All (λ t. HasTemplate cur x t.slug) d.templates) where
    at-HasTemplate :
        (slug : Bytes) (t : DesiredTemplate) → template_at d slug ≡ some t → HasTemplate cur x slug
    unfolding template_at
    at-HasTemplate slug t e =
        let test : DesiredTemplate → Bool = λ u. bytes_eq u.slug slug in
        subst (HasTemplate cur x)
          ((bytes_eq_iff t.slug slug).0 (find_first-hit test d.templates t e))
          (find_first-All (λ u. HasTemplate cur x u.slug) test d.templates t templates_there e)

    seats-HasTemplate : All (λ a. All (HasTemplate cur x) a.templates) d.attributes
    seats-HasTemplate =
        All-imp d.attributes
          (λ a (tpl, t, one, there, named).
            subst (All (HasTemplate cur x)) (sym one) (at-HasTemplate tpl t there, tt))
          g.seated

    -- Where the attributes that are no references are there too, all is known.
    grounded-Known :
        All (λ a. (is_reference a.kind ≡ false) → HasAttribute cur x a.slug) d.attributes
        → All (Known cur x) d.attributes
    grounded-Known plain =
        let Plain : DesiredAttribute → Type 0 =
          λ a. (is_reference a.kind ≡ false) → HasAttribute cur x a.slug in
        let points : (a : DesiredAttribute) → Shows d a → Points cur x a = λ a shows r.
          let ((t, target), (b, found, plain_b)) = shows r in
          let test : DesiredAttribute → Bool = λ u. bytes_eq u.slug a.display in
          (
            at-HasTemplate a.target t target,
            subst (HasAttribute cur x)
                ((bytes_eq_iff b.slug a.display).0 (find_first-hit test d.attributes b found))
                (find_first-All Plain test d.attributes b plain found plain_b),
          ) in
        All-imp d.attributes (λ a (seats, (shows, p)). (seats, points a shows, p))
          (All-both (λ a. All (HasTemplate cur x) a.templates) (λ a. Shows d a × Plain a)
            d.attributes seats-HasTemplate (All-both (Shows d) Plain d.attributes g.shows plain))

  -- Each action of a plan names only templates and attributes that are in the project or created by
  -- an action before it.
  diff-Ordered : (d : Desired) → Grounded d → Ordered cur [] (diff d cur).actions
  unfolding diff
  diff-Ordered d g =
      let bound = bound_to cur.templates [] in
      let sorted = sort attribute_lt d.attributes in
      let out = plan_attributes cur bound sorted in
      let ts = create_templates cur (sort template_lt d.templates) in
      let binds = sort bind_lt out.binds in
      let there : All (λ t. HasTemplate cur ts t.slug) d.templates =
        All-of-sort template_lt (λ t. HasTemplate cur ts t.slug) d.templates
          (create_templates-HasTemplate (sort template_lt d.templates)) in
      let seats : All (λ a. All (HasTemplate cur ts) a.templates) sorted =
        All-sort attribute_lt (λ a. All (HasTemplate cur ts) a.templates) d.attributes
          (seats-HasTemplate d g ts there) in
      let plain : All
          (λ a. (is_reference a.kind ≡ false) → HasAttribute cur (ts ++ out.actions) a.slug)
          d.attributes =
        All-of-sort attribute_lt
          (λ a. (is_reference a.kind ≡ false) → HasAttribute cur (ts ++ out.actions) a.slug)
          d.attributes
          (All-imp sorted (λ a h r. after-HasAttribute cur ts out.actions a.slug (h r))
            (plan_attributes-HasAttribute cur bound sorted)) in
      let known : All (Known cur (ts ++ out.actions)) sorted =
        All-sort attribute_lt (Known cur (ts ++ out.actions)) d.attributes (
          grounded-Known d g (ts ++ out.actions)
            (All-imp d.templates (λ t h. grow-HasTemplate cur ts out.actions t.slug h) there)
            plain) in
      let (refs, options, bound_ready) =
        plan_attributes-Ready cur bound (ts ++ out.actions) sorted known in
      let x = ts ++ out.actions in
      let tail = All-append (Ready cur x) out.refs (out.options ++ binds) refs (
        All-append (Ready cur x) out.options binds options
          (All-sort bind_lt (Ready cur x) out.binds bound_ready)) in
      append-Ordered cur [] ts (out.actions ++ (out.refs ++ (out.options ++ binds)))
        (All-Ordered cur [] ts (create_templates-Ready cur [] (sort template_lt d.templates)))
        (append-Ordered cur ts out.actions (out.refs ++ (out.options ++ binds))
          (All-Ordered cur ts out.actions (plan_attributes-actions cur bound ts sorted seats))
          (All-Ordered cur x (out.refs ++ (out.options ++ binds)) tail))

-- Each action of the plan for what Resolve returns of validated manifests names only templates and
-- attributes that are in the project or created by an action before it: the templates of a new
-- attribute, the target and the shown attribute of a new reference, the attribute of an option,
-- and both sides of a binding.
pub diff-resolve-Ordered :
    (ms : List Manifest) (ov : Overrides) (d : Desired) (cur : Current)
    → validate ms ≡ []
    → resolve ms ov ≡ ok d
    → Ordered cur [] (diff d cur).actions
diff-resolve-Ordered ms ov d cur valid h = diff-Ordered cur d (resolve-Grounded ms ov d valid h)
