-- ===== src/Manifest/Validate/Distinct.antt =====
-- internal/manifest/validate.go: the slugs of manifests without a problem.
use omnistat.Prelude.{
  All-imp, append-nil_both, false, not, Bytes, bytes_eq, bytes_eq_iff, bytes_Eq, Map, lookup,
  lookup-insert, List, [], ◌∷◌, ◌++◌, none, ◌≡◌, ◌≢◌, sym, subst, arith, All, All-append,
  AllDistinct, append-AllDistinct, Bool-cases, Option-cases, inl, inr,
}
use omnistat.Manifest.Validate.{
  Attribute, Manifest, Seen, valid_slug, check_slug, check_attribute, check_attributes,
  check_manifest, check_manifests, entities_of, name_problems, template_problems, host_problems,
  link_problems, validate,
}

abbrev own_slug : Attribute → Bytes
own_slug a = a.slug

-- Between two states of the map of owners, a list of attributes has taken new and distinct slugs.
record Taken (attributes : List Attribute) (before after : Map Bytes Bytes) : Type 0 where
  pub avoided :
      (k : Bytes) → lookup k before ≢ none → All (λ a. bytes_eq k (own_slug a) ≡ false) attributes
  pub kept : (k : Bytes) → lookup k before ≢ none → lookup k after ≢ none
  pub taken : All (λ a. lookup (own_slug a) after ≢ none) attributes
  pub distinct : AllDistinct own_slug attributes

nil-Taken : (m : Map Bytes Bytes) → Taken [] m m
nil-Taken m = record { avoided = λ k h. tt; kept = λ k h. h; taken = tt; distinct = tt }

append-Taken :
    (xs ys : List Attribute) (a b c : Map Bytes Bytes)
    → Taken xs a b
    → Taken ys b c
    → Taken (xs ++ ys) a c
append-Taken xs ys a b c s t = record {
  avoided = λ k h.
      All-append (λ x. bytes_eq k (own_slug x) ≡ false) xs ys (s.avoided k h)
        (t.avoided k (s.kept k h));
  kept = λ k h. t.kept k (s.kept k h);
  taken =
      All-append (λ x. lookup (own_slug x) c ≢ none) xs ys
        (All-imp {P = λ x. lookup (own_slug x) b ≢ none} {Q = λ x. lookup (own_slug x) c ≢ none} xs
          (λ x h. t.kept (own_slug x) h) s.taken)
        t.taken;
  distinct = append-AllDistinct own_slug xs ys s.distinct t.distinct (
      All-imp {P = λ x. lookup (own_slug x) b ≢ none}
        {Q = λ x. All (λ y. bytes_eq (own_slug x) (own_slug y) ≡ false) ys} xs
        (λ x h. t.avoided (own_slug x) h) s.taken);
}

check_slug-Taken :
    (name : Bytes) (a : Attribute) (owner : Map Bytes Bytes)
    → (check_slug name a owner).0 ≡ []
    → Taken (a ∷ []) owner (check_slug name a owner).1
unfolding check_slug
check_slug-Taken name a owner h = elim (Bool-cases (not (valid_slug a.slug))) [
  | inl e ↦ absurd (ground (arith, h, e))
  | inr e ↦ elim (Option-cases (lookup a.slug owner)) [
    | inr (other, f) ↦ absurd (ground (arith, h, e, f))
    | inl f ↦
        rw (e, f, check_slug)
          (record {
            avoided = λ k p. (
              elim (Bool-cases (bytes_eq k a.slug)) [
                | inr n ↦ n
                | inl y ↦
                    absurd
                      (p (subst (λ x. lookup x owner ≡ none) (sym ((bytes_eq_iff k a.slug).0 y)) f))
              ],
              tt,
            );
            kept = λ k p n. p (ground (arith, n, lookup-insert a.slug k name owner));
            taken = (
              λ n.
                  ground
                    (arith, n, lookup-insert a.slug a.slug name owner, bytes_eq_iff a.slug a.slug),
              tt,
            );
            distinct = (tt, tt);
          })
  ]
]

check_attribute-Taken :
    (name : Bytes) (entities : List Bytes) (a : Attribute) (seen : Seen)
    → (check_attribute name entities a seen).0 ≡ []
    → Taken (a ∷ []) seen.slug_owner (check_attribute name entities a seen).1.slug_owner
unfolding check_attribute
check_attribute-Taken name entities a seen h =
    let keys = append-nil_both _ _ h in
    let names = append-nil_both _ _ keys.1 in
    let slugs = append-nil_both _ _ names.1 in check_slug-Taken name a seen.slug_owner slugs.0

check_attributes-Taken :
    (name : Bytes) (entities : List Bytes) (attributes : List Attribute) (seen : Seen)
    → (check_attributes name entities attributes seen).0 ≡ []
    → Taken attributes seen.slug_owner (check_attributes name entities attributes seen).1.slug_owner
unfolding check_attributes
check_attributes-Taken name entities [] seen h = nil-Taken seen.slug_owner
check_attributes-Taken name entities (a ∷ rest) seen h =
    let one = check_attribute name entities a seen in
    let all = check_attributes name entities rest one.1 in
    let parts = append-nil_both one.0 all.0 h in
    append-Taken (a ∷ []) rest seen.slug_owner one.1.slug_owner all.1.slug_owner
      (check_attribute-Taken name entities a seen parts.0)
      (check_attributes-Taken name entities rest one.1 parts.1)

check_manifest-Taken :
    (m : Manifest) (seen : Seen)
    → (check_manifest m seen).0 ≡ []
    → Taken m.attributes seen.slug_owner (check_manifest m seen).1.slug_owner
unfolding check_manifest
check_manifest-Taken m seen h =
    let name = m.module_name in
    let entities = entities_of m.templates in
    let start = record seen { modules = name ∷ seen.modules; keys = []; links = [] } in
    let checked = check_attributes name entities m.attributes start in
    let links = link_problems name entities checked.1.links in
    let hosts = host_problems name entities in
    let templates = template_problems name m.templates in
    let h1 =
      append-nil_both (name_problems name seen.modules)
        (templates ++ (hosts ++ (checked.0 ++ links))) h in
    let h2 = append-nil_both templates (hosts ++ (checked.0 ++ links)) h1.1 in
    let h3 = append-nil_both hosts (checked.0 ++ links) h2.1 in
    check_attributes-Taken name entities m.attributes start (append-nil_both checked.0 links h3.1).0

-- The attributes of all manifests.
unfoldable pub all_attributes : List Manifest → List Attribute
all_attributes [] = []
all_attributes (m ∷ ms) = m.attributes ++ all_attributes ms

check_manifests-Taken :
    (ms : List Manifest) (seen : Seen)
    → (check_manifests ms seen).0 ≡ []
    → Taken (all_attributes ms) seen.slug_owner (check_manifests ms seen).1.slug_owner
unfolding check_manifests all_attributes
check_manifests-Taken [] seen h = nil-Taken seen.slug_owner
check_manifests-Taken (m ∷ ms) seen h =
    let one = check_manifest m seen in
    let all = check_manifests ms one.1 in
    let parts = append-nil_both one.0 all.0 h in
    append-Taken m.attributes (all_attributes ms) seen.slug_owner one.1.slug_owner all.1.slug_owner
      (check_manifest-Taken m seen parts.0) (check_manifests-Taken ms one.1 parts.1)

-- If Validate finds no problem, no two attributes of the manifests have the same slug.
pub validate-AllDistinct :
    (ms : List Manifest) → validate ms ≡ [] → AllDistinct (λ a. a.slug) (all_attributes ms)
unfolding validate
validate-AllDistinct ms h =
    (check_manifests-Taken ms (record { modules = []; slug_owner = []; keys = []; links = [] })
      h).distinct
