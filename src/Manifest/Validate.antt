-- ===== src/Manifest/Validate.antt =====
-- internal/manifest/validate.go and the patterns of manifest.go: what is wrong with a set of
-- manifests. The problems are all reported, in the order in which the source finds them.
pub mod Distinct
pub mod Links
use omnistat.Prelude.{
  ℕ, ◌+◌, Bool, true, false, not, ◌&&◌, ◌||◌, Bytes, codes, bytes_eq, bytes_Eq, Map, lookup, insert,
  List, [], ◌∷◌, ◌++◌, Option, none, some, leb, ◌==◌, if◌then◌else◌,
}
use omnistat.Runes.{runes, is_space}
use omnistat.Manifest.{Kind, is_list, is_reference, contains}

pub record Template : Type 0 where
  pub slug : Bytes
  pub name : Bytes
  pub description : Bytes
  pub entity : Bool

-- An int.
pub data Rank : Type 0 where
  pos : ℕ → Rank
  negsuc : ℕ → Rank

pub record Attribute : Type 0 where
  pub key : Bytes
  pub name : Bytes
  pub slug : Bytes
  pub kind : Kind
  pub description : Bytes
  pub options : List Bytes
  pub template : Bytes
  pub target : Bytes
  pub label : Rank
  pub platforms : List Bytes

pub record Manifest : Type 0 where
  pub module_name : Bytes
  pub templates : List Template
  pub attributes : List Attribute

abbrev pub host_template : Bytes
host_template = codes "host"

abbrev pub known_platforms : List Bytes
known_platforms = codes "darwin" ∷ codes "linux" ∷ codes "windows" ∷ []

abbrev is_lower : ℕ → Bool
is_lower c = leb 97 c && leb c 122

abbrev is_digit : ℕ → Bool
is_digit c = leb 48 c && leb c 57

-- [a-z0-9x]*, where x is the given byte.
all_of : ℕ → Bytes → Bool
all_of x [] = true
all_of x (c ∷ cs) = (is_lower c || (is_digit c || (c == x))) && all_of x cs

-- ^[a-z][a-z0-9_]*$
unfoldable pub valid_slug : Bytes → Bool
unfolding all_of
valid_slug [] = false
valid_slug (c ∷ cs) = is_lower c && all_of 95 cs

-- ^[a-z][a-z0-9-]*$
unfoldable pub valid_module_name : Bytes → Bool
unfolding all_of
valid_module_name [] = false
valid_module_name (c ∷ cs) = is_lower c && all_of 45 cs

unfoldable pub valid_kind : Kind → Bool
valid_kind (Kind.other k) = false
valid_kind _ = true

unfoldable pub all_space : List ℕ → Bool
all_space [] = true
all_space (r ∷ rs) = is_space r && all_space rs

-- strings.TrimSpace(s) == ""
unfoldable pub is_spaces : Bytes → Bool
unfolding all_space
is_spaces s = all_space (runes s)

pub data Problem : Type 0 where
  empty_module : Problem
  bad_module duplicate_module : Bytes → Problem
  bad_template_slug unnamed_template host_entity wrong_links : Bytes → Bytes → Problem
  empty_key duplicate_key unnamed bad_slug bad_kind : Bytes → Bytes → Problem
  slug_declared_twice slug_shared : Bytes → Bytes → Problem
  no_options stray_options empty_option duplicate_option : Bytes → Bytes → Problem
  bad_template wrong_target no_entity_template stray_target : Bytes → Bytes → Problem
  negative_label unknown_platform : Bytes → Bytes → Problem

abbrev pub problem_if : Bool → Problem → List Problem
problem_if true p = p ∷ []
problem_if false p = []

pub is_nil {ℓ} : {A : Type ℓ} → List A → Bool
is_nil [] = true
is_nil (x ∷ xs) = false

-- What the loops remember of what they have seen.
pub record Seen : Type 0 where
  pub modules : List Bytes
  pub slug_owner : Map Bytes Bytes
  pub keys : List Bytes
  pub links : Map Bytes ℕ

unfoldable pub template_problems : Bytes → List Template → List Problem
template_problems name [] = []
template_problems name (t ∷ ts) =
    problem_if (not (valid_slug t.slug)) (bad_template_slug name t.slug)
    ++ (problem_if (is_spaces t.name) (unnamed_template name t.slug) ++ template_problems name ts)

unfoldable pub entities_of : List Template → List Bytes
entities_of [] = []
entities_of (t ∷ ts) = let rest = entities_of ts in if t.entity then t.slug ∷ rest else rest

unfoldable pub host_problems : Bytes → List Bytes → List Problem
host_problems name [] = []
host_problems name (slug ∷ slugs) =
    problem_if (bytes_eq slug host_template) (host_entity name slug) ++ host_problems name slugs

unfoldable pub key_problems : Bytes → Attribute → List Bytes → List Problem
unfolding is_nil
key_problems name a seen =
    if is_nil a.key
    then empty_key name a.slug ∷ []
    else problem_if (contains a.key seen) (duplicate_key name a.key)

-- The problems of a slug, and the owners after it.
unfoldable pub check_slug : Bytes → Attribute → Map Bytes Bytes → List Problem × Map Bytes Bytes
check_slug name a owner =
    if not (valid_slug a.slug)
    then (bad_slug name a.slug ∷ [], owner)
    else elim (lookup a.slug owner) [
      | some other ↦ (
        (if bytes_eq other name then slug_declared_twice name a.slug else slug_shared a.slug other)
            ∷ [],
        owner,
      )
      | none ↦ ([], insert a.slug name owner)
    ]

unfoldable pub option_problems : Bytes → Bytes → List Bytes → List Bytes → List Problem
option_problems name key seen [] = []
option_problems name key seen (o ∷ os) =
    let blank = empty_option name key ∷ option_problems name key seen os in
    let kept =
      problem_if (contains o seen) (duplicate_option name key)
      ++ option_problems name key (o ∷ seen) os in
    if is_spaces o then blank else kept

unfoldable pub options_problems : Bytes → Attribute → List Problem
unfolding is_nil
options_problems name a =
    problem_if (is_list a.kind && is_nil a.options) (no_options name a.key)
    ++ (problem_if (not (is_list a.kind) && not (is_nil a.options)) (stray_options name a.key)
        ++ option_problems name a.key [] a.options)

abbrev or_zero : Option ℕ → ℕ
or_zero none = 0
or_zero (some n) = n

-- The reference rules, and the host links after the attribute.
unfoldable pub check_reference :
    Bytes → List Bytes → Attribute → Map Bytes ℕ → List Problem × Map Bytes ℕ
unfolding is_nil
check_reference name entities a links =
    if is_reference a.kind && not (bytes_eq a.target host_template)
    then (wrong_target name a.key ∷ [], links)
    else if is_reference a.kind && not (contains a.template entities)
    then (no_entity_template name a.key ∷ [], links)
    else if is_reference a.kind
    then ([], insert a.template (or_zero (lookup a.template links) + 1) links)
    else (problem_if (not (is_nil a.target)) (stray_target name a.key), links)

pub is_negative : Rank → Bool
is_negative (pos n) = false
is_negative (negsuc n) = true

unfoldable pub platform_problems : Bytes → Bytes → List Bytes → List Problem
platform_problems name key [] = []
platform_problems name key (p ∷ ps) =
    problem_if (not (contains p known_platforms)) (unknown_platform name key)
    ++ platform_problems name key ps

-- One attribute of a module.
unfoldable pub check_attribute : Bytes → List Bytes → Attribute → Seen → List Problem × Seen
unfolding is_nil is_negative
check_attribute name entities a seen =
    let (slugs, owner) = check_slug name a seen.slug_owner in
    let (references, links) = check_reference name entities a seen.links in
    (
      key_problems name a seen.keys
          ++ (problem_if (is_spaces a.name) (unnamed name a.key)
              ++ (slugs
                  ++ (problem_if (not (valid_kind a.kind)) (bad_kind name a.key)
                      ++ (options_problems name a
                          ++ (problem_if (not (is_nil a.template) && not (valid_slug a.template))
                                (bad_template name a.key)
                              ++ (references
                                  ++ (problem_if (is_negative a.label) (negative_label name a.key)
                                      ++ platform_problems name a.key a.platforms))))))),
      record seen { slug_owner = owner; keys = a.key ∷ seen.keys; links = links },
    )

unfoldable pub check_attributes : Bytes → List Bytes → List Attribute → Seen → List Problem × Seen
check_attributes name entities [] seen = ([], seen)
check_attributes name entities (a ∷ rest) seen =
    let (ps, seen') = check_attribute name entities a seen in
    let (qs, seen'') = check_attributes name entities rest seen' in (ps ++ qs, seen'')

unfoldable pub link_problems : Bytes → List Bytes → Map Bytes ℕ → List Problem
link_problems name [] links = []
link_problems name (slug ∷ slugs) links =
    problem_if (not (or_zero (lookup slug links) == 1)) (wrong_links name slug)
    ++ link_problems name slugs links

unfoldable pub name_problems : Bytes → List Bytes → List Problem
unfolding is_nil
name_problems name modules =
    (if is_nil name
      then empty_module ∷ []
      else problem_if (not (valid_module_name name)) (bad_module name))
    ++ problem_if (contains name modules) (duplicate_module name)

-- One manifest. The keys and the host links are its own, the slugs are shared.
unfoldable pub check_manifest : Manifest → Seen → List Problem × Seen
check_manifest m seen =
    let entities = entities_of m.templates in
    let (ps, seen') =
      check_attributes m.module_name entities m.attributes
        (record seen { modules = m.module_name ∷ seen.modules; keys = []; links = [] }) in
    (
      name_problems m.module_name seen.modules
          ++ (template_problems m.module_name m.templates
              ++ (host_problems m.module_name entities
                  ++ (ps ++ link_problems m.module_name entities seen'.links))),
      seen',
    )

unfoldable pub check_manifests : List Manifest → Seen → List Problem × Seen
check_manifests [] seen = ([], seen)
check_manifests (m ∷ ms) seen =
    let (ps, seen') = check_manifest m seen in
    let (qs, seen'') = check_manifests ms seen' in (ps ++ qs, seen'')

unfoldable pub validate : List Manifest → List Problem
validate ms =
    (check_manifests ms (record { modules = []; slug_owner = []; keys = []; links = [] })).0
