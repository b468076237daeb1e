-- ===== src/Manifest/Validate/Links.antt =====
-- internal/manifest/validate.go: the modules and the references of manifests without a problem.
use omnistat.Prelude.{
  All-imp, append-nil_both, true, false, not, ◌&&◌, ℕ, Bytes, bytes_eq, bytes_Eq, Map, subst, List,
  [], ◌∷◌, ◌++◌, ◌≡◌, refl, ◌∙◌, arith, if◌then◌else◌, All, AllDistinct, Bool-cases, inl, inr,
}
use omnistat.Manifest.{contains, is_reference}
use omnistat.Manifest.Validate.{
  Attribute, Manifest, Seen, check_reference, check_attribute, check_attributes, check_manifest,
  check_manifests, check_slug, entities_of, name_problems, template_problems, host_problems,
  link_problems, validate, is_nil, is_negative, problem_if, negative_label, platform_problems,
  valid_slug, bad_template, options_problems, valid_kind, bad_kind, unnamed, is_spaces,
  key_problems, empty_module, valid_module_name, bad_module, duplicate_module,
}

-- A reference sits on one of the entity templates.
abbrev pub OnEntity : List Bytes → Attribute → Type 0
OnEntity entities a = (is_reference a.kind ≡ true) → contains a.template entities ≡ true

check_reference-OnEntity :
    (name : Bytes) (entities : List Bytes) (a : Attribute) (links : Map Bytes ℕ)
    → (check_reference name entities a links).0 ≡ []
    → OnEntity entities a
unfolding check_reference
check_reference-OnEntity name entities a links h r =
    elim (Bool-cases (contains a.template entities)) [
      | inl e ↦ e
      | inr e ↦ absurd (ground (arith, r, e, h))
    ]

check_attribute-OnEntity :
    (name : Bytes) (entities : List Bytes) (a : Attribute) (seen : Seen)
    → (check_attribute name entities a seen).0 ≡ []
    → OnEntity entities a
unfolding check_attribute
check_attribute-OnEntity name entities a seen h =
    let after =
      problem_if (is_negative a.label) (negative_label name a.key)
      ++ platform_problems name a.key a.platforms in
    let references = (check_reference name entities a seen.links).0 ++ after in
    let templates =
      problem_if (not (is_nil a.template) && not (valid_slug a.template))
        (bad_template name a.key) in
    let options = options_problems name a in
    let kinds = problem_if (not (valid_kind a.kind)) (bad_kind name a.key) in
    let slugs = (check_slug name a seen.slug_owner).0 in
    let names = problem_if (is_spaces a.name) (unnamed name a.key) in
    let h1 =
      append-nil_both (key_problems name a seen.keys)
        (names ++ (slugs ++ (kinds ++ (options ++ (templates ++ references))))) h in
    let h2 =
      append-nil_both names (slugs ++ (kinds ++ (options ++ (templates ++ references)))) h1.1 in
    let h3 = append-nil_both slugs (kinds ++ (options ++ (templates ++ references))) h2.1 in
    let h4 = append-nil_both kinds (options ++ (templates ++ references)) h3.1 in
    let h5 = append-nil_both options (templates ++ references) h4.1 in
    let h6 = append-nil_both templates references h5.1 in
    check_reference-OnEntity name entities a seen.links
      (append-nil_both (check_reference name entities a seen.links).0 after h6.1).0

check_attributes-OnEntity :
    (name : Bytes) (entities : List Bytes) (l : List Attribute) (seen : Seen)
    → (check_attributes name entities l seen).0 ≡ []
    → All (OnEntity entities) l × ((check_attributes name entities l seen).1.modules ≡ seen.modules)
unfolding check_attributes
check_attributes-OnEntity name entities [] seen h = (tt, refl)
check_attributes-OnEntity name entities (a ∷ rest) seen h =
    let one = check_attribute name entities a seen in
    let all = check_attributes name entities rest one.1 in
    let parts = append-nil_both one.0 all.0 h in
    let (ih, kept) = check_attributes-OnEntity name entities rest one.1 parts.1 in
    (
      (check_attribute-OnEntity name entities a seen parts.0, ih),
      kept ∙ unfold check_attribute in refl,
    )

fresh_head :
    (x y : Bytes) (seen : List Bytes) → contains y (x ∷ seen) ≡ false → bytes_eq x y ≡ false
unfolding contains
fresh_head x y seen h = ground (arith, h)

fresh_tail :
    (x y : Bytes) (seen : List Bytes) → contains y (x ∷ seen) ≡ false → contains y seen ≡ false
unfolding contains
fresh_tail x y seen h = ground (arith, h)

fresh_name :
    (name : Bytes) (seen : List Bytes) → name_problems name seen ≡ [] → contains name seen ≡ false
unfolding name_problems
fresh_name name seen h = elim (Bool-cases (contains name seen)) [
  | inr e ↦ e
  | inl e ↦ absurd (
      ground (
        arith,
        e,
        (append-nil_both
            (if is_nil name
              then empty_module ∷ []
              else problem_if (not (valid_module_name name)) (bad_module name))
            (problem_if (contains name seen) (duplicate_module name)) h).1,
      ))
]

-- The references of a manifest sit on its own entity templates.
abbrev pub Moored : Manifest → Type 0
Moored m = All (OnEntity (entities_of m.templates)) m.attributes

check_manifest-Moored :
    (m : Manifest) (seen : Seen)
    → (check_manifest m seen).0 ≡ []
    → Moored m
      × (contains m.module_name seen.modules ≡ false)
      × ((check_manifest m seen).1.modules ≡ m.module_name ∷ seen.modules)
unfolding check_manifest
check_manifest-Moored m seen h =
    let name = m.module_name in
    let entities = entities_of m.templates in
    let start = record seen { modules = name ∷ seen.modules; keys = []; links = [] } in
    let checked = check_attributes name entities m.attributes start in
    let links = link_problems name entities checked.1.links in
    let hosts = host_problems name entities in
    let templates = template_problems name m.templates in
    let h1 =
      append-nil_both (name_problems name seen.modules)
        (templates ++ (hosts ++ (checked.0 ++ links))) h in
    let h2 = append-nil_both templates (hosts ++ (checked.0 ++ links)) h1.1 in
    let h3 = append-nil_both hosts (checked.0 ++ links) h2.1 in
    let (moored, kept) =
      check_attributes-OnEntity name entities m.attributes start
        (append-nil_both checked.0 links h3.1).0 in
    (moored, fresh_name name seen.modules h1.0, kept)

-- The manifests are of distinct modules, none of which was seen before.
abbrev AllNew : List Bytes → List Manifest → Type 0
AllNew seen ms = All (λ m. contains m.module_name seen ≡ false) ms

check_manifests-Moored :
    (ms : List Manifest) (seen : Seen)
    → (check_manifests ms seen).0 ≡ []
    → All Moored ms × AllNew seen.modules ms × AllDistinct (λ m. m.module_name) ms
unfolding check_manifests
check_manifests-Moored [] seen h = (tt, tt, tt)
check_manifests-Moored (m ∷ ms) seen h =
    let one = check_manifest m seen in
    let all = check_manifests ms one.1 in
    let parts = append-nil_both one.0 all.0 h in
    let (moored, fresh, grown) = check_manifest-Moored m seen parts.0 in
    let (ih, new, distinct) = check_manifests-Moored ms one.1 parts.1 in
    (
      (moored, ih),
      (
        fresh,
        All-imp ms
            (λ n k.
              fresh_tail m.module_name n.module_name seen.modules
                (subst (λ z. contains n.module_name z ≡ false) grown k))
            new,
      ),
      (
        All-imp ms
            (λ n k.
              fresh_head m.module_name n.module_name seen.modules
                (subst (λ z. contains n.module_name z ≡ false) grown k))
            new,
        distinct,
      ),
    )

-- Manifests without a problem.
pub validate-Moored :
    (ms : List Manifest) → validate ms ≡ [] → All Moored ms × AllDistinct (λ m. m.module_name) ms
unfolding validate
validate-Moored ms h =
    let (moored, _, distinct) =
      check_manifests-Moored ms (record { modules = []; slug_owner = []; keys = []; links = [] })
        h in
    (moored, distinct)
