-- ===== src/Manifest/Resolve/Templates.antt =====
-- internal/manifest/resolve.go, `Resolve`: the entity templates and the templates.
use omnistat.Prelude.{
  Bool, true, false, not, ◌&&◌, Bytes, bytes_eq, bytes_Eq, codes, Map, lookup, insert, List, [],
  ◌∷◌, ◌++◌, Option, none, some, if◌then◌else◌,
}
use omnistat.Manifest.{DesiredTemplate}
use omnistat.Manifest.Validate.{Manifest, Template, Attribute, entities_of}
use omnistat.Manifest.Resolve.{
  Overrides, ModuleOverride, Problem, moved_together, entity_is_host, entity_shared, is_good,
  is_set, module_override, report_if,
}

-- `slugs` has the resolved slug of a module's entity template, by the module and the slug in its
-- manifest; `owner` has the module of a resolved slug.
pub record Entities : Type 0 where
  pub slugs : Map Bytes (Map Bytes Bytes)
  pub owner : Map Bytes Bytes
  pub problems : List Problem

unfoldable pub all_on : Bytes → List Attribute → Bool
all_on slug [] = true
all_on slug (a ∷ rest) = bytes_eq a.template slug && all_on slug rest

-- All attributes sit on the only entity template.
unfoldable pub all_on_one : List Bytes → List Attribute → Bool
unfolding all_on
all_on_one (e ∷ []) attrs = all_on e attrs
all_on_one _ attrs = false

-- The new slug of a module's entity template, if its override is one.
unfoldable pub rename_of : Manifest → ModuleOverride → List Bytes → Bytes × List Problem
unfolding is_good all_on_one
rename_of m o ents =
    if not (is_good o.template)
    then ([], [])
    else if all_on_one ents m.attributes
    then (o.template, [])
    else ([], moved_together m.module_name ∷ [])

pub shared : Bytes → Bytes → Option Bytes → List Problem
shared slug name none = []
shared slug name (some prev) = report_if (not (bytes_eq prev name)) (entity_shared slug prev name)

-- The entity templates of a module; `inner` has their resolved slugs.
unfoldable pub add_entities :
    Bytes → Bytes → Bytes → List Bytes → Map Bytes Bytes → Entities → Map Bytes Bytes × Entities
unfolding is_set shared
add_entities host name rename [] inner s = (inner, s)
add_entities host name rename (e ∷ es) inner s =
    let slug = if is_set rename then rename else e in
    add_entities host name rename es (insert e slug inner) (record s {
      owner = insert slug name s.owner;
      problems =
          s.problems
          ++ (report_if (bytes_eq slug host) (entity_is_host name e)
              ++ shared slug name (lookup slug s.owner));
    })

unfoldable pub add_module : Bytes → Overrides → Manifest → List Bytes → Entities → Entities
unfolding rename_of add_entities module_override
add_module host ov m [] s = s
add_module host ov m (e ∷ es) s =
    let o = module_override (lookup m.module_name ov.modules) in
    let (rename, problems) = rename_of m o (e ∷ es) in
    let (inner, s') =
      add_entities host m.module_name rename (e ∷ es) []
        (record s { problems = s.problems ++ problems }) in
    record s' { slugs = insert m.module_name inner s'.slugs }

unfoldable pub entity_pass : Bytes → Overrides → List Manifest → Entities → Entities
unfolding add_module entities_of
entity_pass host ov [] s = s
entity_pass host ov (m ∷ ms) s =
    entity_pass host ov ms (add_module host ov m (entities_of m.templates) s)

-- `declare`: the first template of a slug stays.
unfoldable pub declare : DesiredTemplate → Map Bytes DesiredTemplate → Map Bytes DesiredTemplate
declare t ts = elim (lookup t.slug ts) [ none ↦ insert t.slug t ts | some _ ↦ ts ]

unfoldable pub or_empty : Option Bytes → Bytes
or_empty none = []
or_empty (some s) = s

-- The resolved slugs of a module's entity templates; there are none for an unknown module.
unfoldable pub slugs_of : Entities → Bytes → Map Bytes Bytes
slugs_of s name = elim (lookup name s.slugs) [ none ↦ [] | some inner ↦ inner ]

unfoldable pub desired_template : Entities → Bytes → Template → DesiredTemplate
unfolding slugs_of or_empty
desired_template s name t =
    if t.entity
    then record {
      slug = or_empty (lookup t.slug (slugs_of s name));
      name = t.name;
      description = t.description;
      entity = true;
      module_name = name;
      key = t.slug;
    }
    else record {
      slug = t.slug;
      name = t.name;
      description = t.description;
      entity = false;
      module_name = [];
      key = [];
    }

unfoldable pub declare_all :
    Entities → Bytes → List Template → Map Bytes DesiredTemplate → Map Bytes DesiredTemplate
unfolding declare desired_template
declare_all s name [] ts = ts
declare_all s name (t ∷ rest) ts = declare_all s name rest (declare (desired_template s name t) ts)

unfoldable pub template_pass :
    Entities → List Manifest → Map Bytes DesiredTemplate → Map Bytes DesiredTemplate
unfolding declare_all
template_pass s [] ts = ts
template_pass s (m ∷ ms) ts = template_pass s ms (declare_all s m.module_name m.templates ts)

unfoldable pub host_desired : Bytes → DesiredTemplate
host_desired host = record {
  slug = host;
  name = codes "Host";
  description = codes "A machine reporting through omnistat";
  entity = false;
  module_name = [];
  key = [];
}
