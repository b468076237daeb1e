-- ===== src/Manifest/Resolve/Links.antt =====
-- internal/manifest/resolve.go, `Resolve`: the host links of the result.
use omnistat.Prelude.{
  ℕ, zero, suc, true, false, ◌&&◌, ◌||◌, not, ltb, ◌==◌, Bytes, bytes_eq, bytes_lt, bytes_Eq, Map,
  lookup, List, [], ◌∷◌, some, ◌≡◌, refl, sym, ap, ◌∙◌, subst, inl, inr, Bool-cases, Option-cases,
  if◌then◌else◌, arith, All, All-sort,
}
use omnistat.Prelude.Keyed.{Keyed, values}
use omnistat.Settle.{ok}
use omnistat.Manifest.{Desired, DesiredAttribute, is_reference}
use omnistat.Manifest.Validate.{Manifest, Attribute, Rank, pos, negsuc}
use omnistat.Manifest.Resolve.{
  AttributeOverride, Overrides, ModuleOverride, Problem, module_override, attribute_override,
  no_label, is_set, resolve_host, by_module, override_problems, report_if,
}
use omnistat.Manifest.Resolve.Templates.{Entities}
use omnistat.Manifest.Resolve.Attributes.{
  Label, Made, Place, add_attribute, add_attributes, add_desired, attribute_id, attribute_pass,
  better, desired_attribute, display_pass, place, rank_attributes, rank_pass, sits_on, slug_of,
  unlabelled, with_display, with_rank,
}
use omnistat.Manifest.Resolve.Whole.{
  attribute_before, desired, entities, find_first, host_of, label, made, resolve, start, problems,
}
use omnistat.Manifest.Resolve.Keyed.{
  display_pass-Keyed, made-Good, resolve-desired, with_display-slug,
}
use omnistat.Manifest.Resolve.Sound.{insert-All, with_display-templates}
use omnistat.Manifest.Resolve.Complete.{append-nil_right}
use omnistat.Manifest.Resolve.Complete.Found.{found_by_slug, lookup-display, lookup-Keyed}

pub add_desired-All :
    (P : DesiredAttribute → Type 0) (id : Bytes) (d : DesiredAttribute) (ps : List Problem)
    (s : Made)
    → P d
    → All (λ x. P x.1) s.attrs
    → All (λ x. P x.1) (add_desired id d ps s).attrs
unfolding add_desired
add_desired-All P id d ps s p h = elim (Option-cases (lookup d.slug s.owner)) [
  | inl n ↦ rw (n, add_desired) (insert-All P d.slug d s.attrs p h)
  | inr (prev, q) ↦ rw (q, add_desired) h
]

-- What holds of every attribute as it is made, holds of all.
module _ (host : Bytes) (P : DesiredAttribute → Type 0)
    (made_so : (name : Bytes) (o : AttributeOverride) (p : Place) (a : Attribute)
      → P (desired_attribute host name o p a)) where
  add_attributes-All :
      (e : Entities) (name : Bytes) (mo : ModuleOverride) (l : List Attribute) (s : Made)
      → All (λ x. P x.1) s.attrs
      → All (λ x. P x.1) (add_attributes e host name mo l s).attrs
  unfolding add_attributes add_attribute
  add_attributes-All e name mo [] s h = h
  add_attributes-All e name mo (a ∷ l) s h =
      let o = attribute_override (lookup a.key mo.attributes) in
      let p = place e host name o.template mo.template a in
      let d = desired_attribute host name o p a in
      add_attributes-All e name mo l (add_attribute e host name mo a s)
        (add_desired-All P (attribute_id name a.key) d p.problems s (made_so name o p a) h)

  attribute_pass-All :
      (e : Entities) (ov : Overrides) (ms : List Manifest) (s : Made)
      → All (λ x. P x.1) s.attrs
      → All (λ x. P x.1) (attribute_pass e host ov ms s).attrs
  unfolding attribute_pass
  attribute_pass-All e ov [] s h = h
  attribute_pass-All e ov (m ∷ ms) s h =
      let mo = module_override (lookup m.module_name ov.modules) in
      attribute_pass-All e ov ms (add_attributes e host m.module_name mo m.attributes s)
        (add_attributes-All e m.module_name mo m.attributes s h)

-- A reference points to the host template, and nothing else points anywhere.
abbrev Pointed : Bytes → DesiredAttribute → Type 0
Pointed host d = (d.target ≡ (if is_reference d.kind then host else [])) × (d.display ≡ [])

desired_attribute-Pointed :
    (host name : Bytes) (o : AttributeOverride) (p : Place) (a : Attribute)
    → Pointed host (desired_attribute host name o p a)
unfolding desired_attribute
desired_attribute-Pointed host name o p a = (refl, refl)

-- The label is an attribute that sits on the host template.
abbrev IsLabel : Bytes → Map Bytes DesiredAttribute → Bytes → Type 0
IsLabel host attrs display =
    (b : DesiredAttribute) × (lookup display attrs ≡ some b) × (sits_on host b.templates ≡ true)

abbrev HasLabel : Bytes → Map Bytes DesiredAttribute → Label → Type 0
HasLabel host attrs l = (is_set l.display ≡ true) → IsLabel host attrs l.display

module _ (host : Bytes) (s : Made) (keyed : Keyed (λ a. a.slug) s.attrs) where
  better-HasLabel :
      (r : ℕ) (k : Bytes) (l : Label)
      → HasLabel host s.attrs l
      → HasLabel host s.attrs (better r (lookup k s.attrs) host l)
  unfolding better
  better-HasLabel r k l h = elim (Option-cases (lookup k s.attrs)) [
    | inl n ↦ rw n h
    | inr (d, e) ↦
        let slug = lookup-Keyed k d s.attrs keyed e in
        let choice =
          sits_on host d.templates
          && (ltb l.rank r || ((r == l.rank) && bytes_lt d.slug l.display)) in
        elim (Bool-cases choice) [
          | inr b ↦ rw (e, b, better) h
          | inl b ↦
              rw (e, b, better) (λ q. (d, ap (λ x. lookup x s.attrs) slug ∙ e, ground (arith, b)))
        ]
  ]

  with_rank-HasLabel :
      (r : Rank) (k : Bytes) (l : Label)
      → HasLabel host s.attrs l
      → HasLabel host s.attrs (with_rank r (λ n. better n (lookup k s.attrs) host l) l)
  unfolding with_rank
  with_rank-HasLabel (pos zero) k l h = h
  with_rank-HasLabel (pos (suc n)) k l h = better-HasLabel (suc n) k l h
  with_rank-HasLabel (negsuc n) k l h = h

  rank_attributes-HasLabel :
      (name : Bytes) (rest' : List Attribute) (l : Label)
      → HasLabel host s.attrs l
      → HasLabel host s.attrs (rank_attributes host name s rest' l)
  unfolding rank_attributes
  rank_attributes-HasLabel name [] l h = h
  rank_attributes-HasLabel name (a ∷ rest) l h =
      let k = slug_of (attribute_id name a.key) s.owner in
      rank_attributes-HasLabel name rest
        (with_rank a.label (λ r. better r (lookup k s.attrs) host l) l)
        (with_rank-HasLabel a.label k l h)

  rank_pass-HasLabel :
      (ms : List Manifest) (l : Label)
      → HasLabel host s.attrs l
      → HasLabel host s.attrs (rank_pass host s ms l)
  unfolding rank_pass
  rank_pass-HasLabel [] l h = h
  rank_pass-HasLabel (m ∷ ms) l h =
      rank_pass-HasLabel ms (rank_attributes host m.module_name s m.attributes l)
        (rank_attributes-HasLabel m.module_name m.attributes l h)

-- A reference points to the host template and shows an attribute that sits on it; nothing else
-- points or shows anything.
abbrev pub Linked : Desired → DesiredAttribute → Type 0
Linked d a =
    ((is_reference a.kind ≡ true)
      → (a.target ≡ d.host)
        × ((b : DesiredAttribute) × (find_first (λ x. bytes_eq x.slug a.display) d.attributes
              ≡ some b)
            × (sits_on d.host b.templates ≡ true)))
    × ((is_reference a.kind ≡ false) → (a.target ≡ []) × (a.display ≡ []))

-- Where no reference is without a label.
unlabelled-set :
    (l : Bytes) (m : Map Bytes DesiredAttribute)
    → unlabelled l m ≡ []
    → All (λ x. (is_reference x.1.kind ≡ true) → is_set l ≡ true) m
unfolding unlabelled
unlabelled-set l [] h = tt
unlabelled-set l ((k, d) ∷ m) h = (
  elim (Bool-cases (is_set l)) [ inl e ↦ λ q. e | inr e ↦ λ q. absurd (ground (arith, q, e, h)) ],
  unlabelled-set l m (
      append-nil_right
        (report_if (is_reference d.kind && not (is_set l)) (no_label d.module_name d.key))
        (unlabelled l m) h),
)

module _ (ms : List Manifest) (ov : Overrides) where
  made-Pointed : All (λ x. Pointed (host_of ms ov) x.1) (made ms ov).attrs
  unfolding made start
  made-Pointed =
      attribute_pass-All (host_of ms ov) (Pointed (host_of ms ov))
        (desired_attribute-Pointed (host_of ms ov)) (entities ms ov) ov ms (start ms ov) tt

  label-HasLabel : HasLabel (host_of ms ov) (made ms ov).attrs (label ms ov)
  unfolding label
  label-HasLabel =
      rank_pass-HasLabel (host_of ms ov) (made ms ov) (made-Good ms ov).1 ms
        (record { display = []; rank = 0 }) (λ q. absurd (unfold is_set in ground (arith, q)))

  -- The label after the last pass.
  shown :
      is_set (label ms ov).display ≡ true
      → (b : DesiredAttribute) × (find_first
            (λ x. bytes_eq x.slug (label ms ov).display)
            (desired ms ov).attributes
          ≡ some b)
        × (sits_on (host_of ms ov) b.templates ≡ true)
  unfolding desired
  shown h =
      let l = (label ms ov).display in
      let (b, there, sits) = label-HasLabel h in
      let m = (made ms ov).attrs in
      let x = with_display l b in
      let slug = with_display-slug l b ∙ lookup-Keyed l b m (made-Good ms ov).1 there in
      let there' : lookup x.slug (display_pass l m) ≡ some x =
        ap (λ k. lookup k (display_pass l m)) slug ∙ lookup-display l l b m there in
      let found =
        found_by_slug (display_pass l m) x (display_pass-Keyed l m (made-Good ms ov).1) there' in
      (
        x,
        subst (λ k. find_first (λ y. bytes_eq y.slug k) (desired ms ov).attributes ≡ some x) slug
            found,
        ap (sits_on (host_of ms ov)) (with_display-templates l b) ∙ sits,
      )

  with_display-Linked :
      (d : DesiredAttribute)
      → Pointed (host_of ms ov) d
      → ((is_reference d.kind ≡ true) → is_set (label ms ov).display ≡ true)
      → Linked (desired ms ov) (with_display (label ms ov).display d)
  unfolding with_display
  with_display-Linked d p h =
      let l = (label ms ov).display in
      elim (Bool-cases (is_reference d.kind)) [
        | inl r ↦
            let set = h r in
            let shows : record d { display = l } ≡ with_display l d =
              rw (r, set, with_display) refl in
            subst (Linked (desired ms ov)) shows (
              λ q. (p.0 ∙ rw r (unfold desired in refl), unfold desired in shown set),
              λ q. absurd (ground (arith, r, q)),
            )
        | inr r ↦
            let same : d ≡ with_display l d = rw (r, with_display) refl in
            subst (Linked (desired ms ov)) same
              (λ q. absurd (ground (arith, r, q)), λ q. (p.0 ∙ rw r refl, p.1))
      ]

  All-Linked :
      (m : Map Bytes DesiredAttribute)
      → All (λ x. Pointed (host_of ms ov) x.1) m
      → All (λ x. (is_reference x.1.kind ≡ true) → is_set (label ms ov).display ≡ true) m
      → All (Linked (desired ms ov)) (values (display_pass (label ms ov).display m))
  unfolding display_pass
  All-Linked [] p h = tt
  All-Linked (x ∷ m) p h = (with_display-Linked x.1 p.0 h.0, All-Linked m p.1 h.1)

  labelled : problems ms ov ≡ [] → unlabelled (label ms ov).display (made ms ov).attrs ≡ []
  unfolding problems
  labelled h = append-nil_right (made ms ov).problems _ (
      append-nil_right (entities ms ov).problems _ (
        append-nil_right (override_problems (by_module ms []) ov.modules) _
          (append-nil_right (resolve_host ov.host_template).1 _ h)))

  -- In the desired schema a reference points to the host template and shows an attribute that sits
  -- on the host template; no other attribute points to or shows anything.
  pub resolve-Linked : (d : Desired) → resolve ms ov ≡ ok d → All (Linked d) d.attributes
  unfolding desired
  resolve-Linked d h =
      let (same, fine) = resolve-desired ms ov d h in
      let l = (label ms ov).display in
      let m = (made ms ov).attrs in
      subst (λ x. All (Linked x) x.attributes) (sym same)
        (All-sort attribute_before (Linked (desired ms ov)) (values (display_pass l m))
          (All-Linked m made-Pointed (unlabelled-set l m (labelled fine))))
