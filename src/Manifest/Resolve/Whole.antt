-- ===== src/Manifest/Resolve/Whole.antt =====
-- internal/manifest/resolve.go, `Resolve` as a whole, and the ways to look something up in what it
-- returns.
use omnistat.Prelude.{
  Bool, false, ◌&&◌, Bytes, bytes_eq, bytes_lt, List, [], ◌∷◌, ◌++◌, map, Option, none, some,
  if◌then◌else◌, sort,
}
use omnistat.Settle.{Result, ok, err}
use omnistat.Manifest.{Desired, DesiredTemplate, DesiredAttribute, is_reference}
use omnistat.Manifest.Validate.{Manifest}
use omnistat.Manifest.Resolve.{Overrides, Problem, by_module, override_problems, resolve_host}
use omnistat.Manifest.Resolve.Templates.{
  Entities, declare, entity_pass, host_desired, template_pass,
}
use omnistat.Manifest.Resolve.Attributes.{
  Label, Made, attribute_pass, display_pass, rank_pass, unlabelled,
}

abbrev pub template_before : DesiredTemplate → DesiredTemplate → Bool
template_before a b = bytes_lt a.slug b.slug

abbrev pub attribute_before : DesiredAttribute → DesiredAttribute → Bool
attribute_before a b = bytes_lt a.slug b.slug

abbrev pub no_entities : Entities
no_entities = record { slugs = []; owner = []; problems = [] }

module _ (manifests : List Manifest) (ov : Overrides) where
  unfoldable pub host_of : Bytes
  unfolding resolve_host
  host_of = (resolve_host ov.host_template).0

  unfoldable pub entities : Entities
  unfolding entity_pass host_of
  entities = entity_pass host_of ov manifests no_entities

  unfoldable pub start : Made
  unfolding template_pass declare host_desired host_of entities
  start = record {
    templates = template_pass entities manifests (declare (host_desired host_of) []);
    attrs = [];
    owner = [];
    problems = [];
  }

  unfoldable pub made : Made
  unfolding attribute_pass entities host_of start
  made = attribute_pass entities host_of ov manifests start

  unfoldable pub label : Label
  unfolding rank_pass host_of made
  label = rank_pass host_of made manifests (record { display = []; rank = 0 })

  unfoldable pub problems : List Problem
  unfolding resolve_host by_module override_problems entities made label unlabelled
  problems =
      (resolve_host ov.host_template).1
      ++ (override_problems (by_module manifests []) ov.modules
          ++ (entities.problems ++ (made.problems ++ unlabelled label.display made.attrs)))

  -- Everything under one slug, in the order of the slugs.
  unfoldable pub desired : Desired
  unfolding host_of made display_pass label
  desired = record {
    host = host_of;
    templates = sort template_before (map (λ e. e.1) made.templates);
    attributes = sort attribute_before (map (λ e. e.1) (display_pass label.display made.attrs));
  }

  -- `Resolve`
  unfoldable pub resolve : Result (List Problem) Desired
  unfolding problems desired
  resolve = elim problems [ [] ↦ ok desired | p ∷ ps ↦ err (p ∷ ps) ]

unfoldable pub find_first : {A : Type 0} → (A → Bool) → List A → Option A
find_first test [] = none
find_first test (x ∷ xs) = let rest = find_first test xs in if test x then some x else rest

-- `Desired.Template`
unfoldable pub template_at : Desired → Bytes → Option DesiredTemplate
unfolding find_first
template_at d slug = find_first (λ t. bytes_eq t.slug slug) d.templates

-- `Desired.EntityTemplate`
unfoldable pub entity_template : Desired → Bytes → Bytes → Option DesiredTemplate
unfolding find_first
entity_template d name key =
    find_first (λ t. t.entity && (bytes_eq t.module_name name && bytes_eq t.key key)) d.templates

sits_on : List Bytes → Bytes → Bool
sits_on [] slug = false
sits_on (t ∷ ts) slug = bytes_eq t slug

-- `Desired.HostLink`
unfoldable pub host_link : Desired → Bytes → Option DesiredAttribute
unfolding find_first sits_on
host_link d slug = find_first (λ a. is_reference a.kind && sits_on a.templates slug) d.attributes

-- `Desired.Find`
unfoldable pub find : Desired → Bytes → Bytes → Option DesiredAttribute
unfolding find_first
find d name key = find_first (λ a. bytes_eq a.module_name name && bytes_eq a.key key) d.attributes
