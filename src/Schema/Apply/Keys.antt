-- ===== src/Schema/Apply/Keys.antt =====
-- internal/schema: the keys of actions on distinct slugs.
use omnistat.Prelude.{
  AllDistinct, ◌≤◌, true, false, Bytes, codes, bytes_eq, bytes_eq_iff, bytes_Eq, List, [], ◌∷◌,
  ◌++◌, ◌≡◌, ◌⊎◌, refl, sym, ◌∙◌, subst, arith, All, Bool-cases, inl, inr, count_if, count_if_none,
}
use omnistat.Manifest.{DesiredTemplate, DesiredAttribute, Desired}
use omnistat.Schema.Types.{Current}
use omnistat.Schema.Diff.{diff}
use omnistat.Schema.Apply.Creations.{
  creations, template_key, template_has, attribute_has, diff-creations,
}

-- No two templates, and no two attributes, of the desired schema have the same slug.
abbrev pub Distinct : Desired → Type 0
Distinct d = AllDistinct (λ t. t.slug) d.templates × AllDistinct (λ a. a.slug) d.attributes

append-cancel : (p s t : Bytes) → p ++ s ≡ p ++ t → s ≡ t
append-cancel [] s t h = h
append-cancel (a ∷ p) s t h = append-cancel p s t (ground (arith, h))

-- Slugs that differ have keys that differ.
other_key :
    (p k s t : Bytes)
    → bytes_eq (p ++ s) k ≡ true
    → bytes_eq s t ≡ false
    → bytes_eq (p ++ t) k ≡ false
other_key p k s t h n = elim (Bool-cases (bytes_eq (p ++ t) k)) [
  | inr e ↦ e
  | inl e ↦
      let same =
        append-cancel p s t ((bytes_eq_iff (p ++ s) k).0 h ∙ sym ((bytes_eq_iff (p ++ t) k).0 e)) in
      absurd (ground (arith, n, (bytes_eq_iff s t).1 same))
]

other_keys :
    {A : Type 0} (slug : A → Bytes) (p k s : Bytes) (xs : List A)
    → bytes_eq (p ++ s) k ≡ true
    → All (λ y. bytes_eq s (slug y) ≡ false) xs
    → All (λ y. bytes_eq (p ++ slug y) k ≡ false) xs
other_keys slug p k s [] h a = tt
other_keys slug p k s (y ∷ ys) h a =
    (other_key p k s (slug y) h a.0, other_keys slug p k s ys h a.1)

-- Among distinct slugs a key is met once.
distinct_lem :
    {A : Type 0} (slug : A → Bytes) (p k : Bytes) (xs : List A)
    → AllDistinct slug xs
    → count_if (λ y. bytes_eq (p ++ slug y) k) xs ≤ 1
unfolding count_if
distinct_lem slug p k [] d = omega arith
distinct_lem slug p k (x ∷ xs) d = elim (Bool-cases (bytes_eq (p ++ slug x) k)) [
  | inl e ↦ ground (
    arith,
    e,
    count_if_none (λ y. bytes_eq (p ++ slug y) k) xs (other_keys slug p k (slug x) xs e d.0),
  )
  | inr e ↦ ground (arith, e, distinct_lem slug p k xs d.1)
]

-- Either no template has the key, or it is a template's key.
template-or_none :
    (k : Bytes) (ts : List DesiredTemplate)
    → (count_if (template_has k) ts ≡ 0)
      ⊎ ((slug : Bytes) × (codes "create_template" ++ codes " " ++ slug ≡ k))
unfolding count_if
template-or_none k [] = inl refl
template-or_none k (t ∷ ts) = elim (Bool-cases (template_has k t)) [
  | inl e ↦ inr (t.slug, (bytes_eq_iff (template_key t) k).0 e)
  | inr e ↦ elim (template-or_none k ts) [ inl h ↦ inl (ground (arith, e, h)) | inr h ↦ inr h ]
]

no_attribute :
    (slug : Bytes) (rest : List DesiredAttribute)
    → count_if (attribute_has (codes "create_template" ++ codes " " ++ slug)) rest ≡ 0
unfolding count_if bytes_eq
no_attribute slug [] = refl
no_attribute slug (a ∷ rest) = no_attribute slug rest

-- A plan for distinct slugs creates the object of a key at most once.
pub diff-creations_once :
    (d : Desired) (cur : Current) (k : Bytes) → Distinct d → creations k (diff d cur).actions ≤ 1
diff-creations_once d cur k h =
    let bound = diff-creations cur k d in
    let ts = distinct_lem (λ t. t.slug) (codes "create_template" ++ codes " ") k d.templates h.0 in
    let rest =
      distinct_lem (λ a. a.slug) (codes "create_attribute" ++ codes " ") k d.attributes h.1 in
    elim (template-or_none k d.templates) [
      | inl none_has ↦ omega (arith, bound, none_has, rest)
      | inr (slug, e) ↦
          let no =
            subst (λ x. count_if (attribute_has x) d.attributes ≡ 0) e
              (no_attribute slug d.attributes) in
          omega (arith, bound, ts, no)
    ]
