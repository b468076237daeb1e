-- ===== src/Manifest/Resolve/Attributes.antt =====
-- internal/manifest/resolve.go, `Resolve`: the attributes.
use omnistat.Prelude.{
  ℕ, suc, zero, Bool, false, not, ◌&&◌, ◌||◌, Bytes, bytes_eq, bytes_lt, bytes_Eq, Map, lookup,
  insert, List, [], ◌∷◌, ◌++◌, Option, none, some, if◌then◌else◌, ltb, ◌==◌,
}
use omnistat.Manifest.{DesiredTemplate, DesiredAttribute, is_reference}
use omnistat.Manifest.Title.{title_from_slug}
use omnistat.Manifest.Validate.{Manifest, Attribute, Rank, pos, negsuc}
use omnistat.Manifest.Resolve.{
  AttributeOverride, Overrides, ModuleOverride, Problem, moved_off_entity, onto_entity,
  slug_mapped_twice, no_label, attribute_override, module_override, is_good, is_set, report_if,
}
use omnistat.Manifest.Resolve.Templates.{Entities, declare, slugs_of}

-- What the loop over the attributes has made; `owner` has the name of a slug's attribute.
pub record Made : Type 0 where
  pub templates : Map Bytes DesiredTemplate
  pub attrs : Map Bytes DesiredAttribute
  pub owner : Map Bytes Bytes
  pub problems : List Problem

-- Where an attribute sits: its template, the manifest's slug of an entity template, and what is
-- wrong with that.
pub record Place : Type 0 where
  pub template : Bytes
  pub entity : Bytes
  pub problems : List Problem

unfoldable pub override_or : Bytes → Bytes → Bytes
unfolding is_set
override_or o default = if is_set o then o else default

unfoldable pub slug_or : Bytes → Bytes → Bytes
unfolding is_good
slug_or o default = if is_good o then o else default

-- The override of the attribute, of the module, the manifest's template, the host's.
unfoldable pub free_template : Bytes → Bytes → Bytes → Bytes → Bytes
unfolding is_good is_set
free_template host of_attribute of_module of_manifest =
    if is_good of_attribute
    then of_attribute
    else if is_good of_module
    then of_module
    else if is_set of_manifest
    then of_manifest
    else host

onto : Bytes → Bytes → Bytes → Option Bytes → List Problem
onto name key tpl none = []
onto name key tpl (some owner) = onto_entity name key tpl owner ∷ []

-- An attribute of an entity template stays on it.
unfoldable pub place : Entities → Bytes → Bytes → Bytes → Bytes → Attribute → Place
unfolding free_template onto slugs_of is_set
place s host name of_attribute of_module a = elim (lookup a.template (slugs_of s name)) [
  | some ent ↦ record {
    template = ent;
    entity = a.template;
    problems =
        report_if (is_set of_attribute && not (bytes_eq of_attribute ent))
          (moved_off_entity name a.key of_attribute);
  }
  | none ↦
      let tpl = free_template host of_attribute of_module a.template in
      record { template = tpl; entity = []; problems = onto name a.key tpl (lookup tpl s.owner) }
]

unfoldable pub desired_attribute :
    Bytes → Bytes → AttributeOverride → Place → Attribute → DesiredAttribute
unfolding slug_or override_or
desired_attribute host name o p a = record {
  slug = slug_or o.slug a.slug;
  name = override_or o.name a.name;
  description = override_or o.description a.description;
  kind = a.kind;
  options = a.options;
  templates = p.template ∷ [];
  module_name = name;
  key = a.key;
  platforms = a.platforms;
  entity_template = p.entity;
  target = if is_reference a.kind then host else [];
  display = [];
}

-- A template that only overrides name.
unfoldable pub named_by_slug : Bytes → DesiredTemplate
unfolding title_from_slug
named_by_slug slug = record {
  slug = slug;
  name = title_from_slug slug;
  description = [];
  entity = false;
  module_name = [];
  key = [];
}

-- m.Module + "/" + a.Key
unfoldable pub attribute_id : Bytes → Bytes → Bytes
attribute_id name key = name ++ b'/' ∷ key

unfoldable pub declare_named : List Bytes → Map Bytes DesiredTemplate → Map Bytes DesiredTemplate
unfolding declare named_by_slug
declare_named [] ts = ts
declare_named (tpl ∷ _) ts = declare (named_by_slug tpl) ts

-- The slug goes to the first attribute that is mapped to it.
unfoldable pub add_desired : Bytes → DesiredAttribute → List Problem → Made → Made
unfolding declare_named
add_desired id d problems s =
    let templates = declare_named d.templates s.templates in
    elim (lookup d.slug s.owner) [
      | some prev ↦ record s {
        templates = templates;
        problems = s.problems ++ (problems ++ slug_mapped_twice d.slug prev id ∷ []);
      }
      | none ↦ record {
        templates = templates;
        attrs = insert d.slug d s.attrs;
        owner = insert d.slug id s.owner;
        problems = s.problems ++ problems;
      }
    ]

unfoldable pub add_attribute : Entities → Bytes → Bytes → ModuleOverride → Attribute → Made → Made
unfolding attribute_override place desired_attribute add_desired attribute_id
add_attribute e host name mo a s =
    let o = attribute_override (lookup a.key mo.attributes) in
    let p = place e host name o.template mo.template a in
    add_desired (attribute_id name a.key) (desired_attribute host name o p a) p.problems s

unfoldable pub add_attributes :
    Entities → Bytes → Bytes → ModuleOverride → List Attribute → Made → Made
unfolding add_attribute
add_attributes e host name mo [] s = s
add_attributes e host name mo (a ∷ rest) s =
    add_attributes e host name mo rest (add_attribute e host name mo a s)

unfoldable pub attribute_pass : Entities → Bytes → Overrides → List Manifest → Made → Made
unfolding add_attributes module_override
attribute_pass e host ov [] s = s
attribute_pass e host ov (m ∷ ms) s =
    let mo = module_override (lookup m.module_name ov.modules) in
    attribute_pass e host ov ms (add_attributes e host m.module_name mo m.attributes s)

-- `slugOf`
unfoldable pub slug_of : Bytes → Map Bytes Bytes → Bytes
slug_of id [] = []
slug_of id ((slug, other) ∷ owner) =
    let rest = slug_of id owner in if bytes_eq other id then slug else rest

-- The label that a host link shows, and its rank.
pub record Label : Type 0 where
  pub display : Bytes
  pub rank : ℕ

unfoldable pub sits_on : Bytes → List Bytes → Bool
sits_on host [] = false
sits_on host (tpl ∷ _) = bytes_eq tpl host

unfoldable pub better : ℕ → Option DesiredAttribute → Bytes → Label → Label
unfolding sits_on
better r none host l = l
better r (some d) host l =
    if sits_on host d.templates && (ltb l.rank r || ((r == l.rank) && bytes_lt d.slug l.display))
    then record { display = d.slug; rank = r }
    else l

unfoldable pub with_rank : Rank → (ℕ → Label) → Label → Label
with_rank (pos zero) f l = l
with_rank (pos (suc n)) f l = f (suc n)
with_rank (negsuc n) f l = l

unfoldable pub rank_attributes : Bytes → Bytes → Made → List Attribute → Label → Label
unfolding better with_rank slug_of attribute_id
rank_attributes host name s [] l = l
rank_attributes host name s (a ∷ rest) l =
    let d = lookup (slug_of (attribute_id name a.key) s.owner) s.attrs in
    rank_attributes host name s rest (with_rank a.label (λ r. better r d host l) l)

unfoldable pub rank_pass : Bytes → Made → List Manifest → Label → Label
unfolding rank_attributes
rank_pass host s [] l = l
rank_pass host s (m ∷ ms) l =
    rank_pass host s ms (rank_attributes host m.module_name s m.attributes l)

unfoldable pub unlabelled : Bytes → Map Bytes DesiredAttribute → List Problem
unfolding is_set
unlabelled display [] = []
unlabelled display ((slug, d) ∷ rest) =
    report_if (is_reference d.kind && not (is_set display)) (no_label d.module_name d.key)
    ++ unlabelled display rest

-- A reference shows the label.
unfoldable pub with_display : Bytes → DesiredAttribute → DesiredAttribute
unfolding is_set
with_display display d =
    if is_reference d.kind && is_set display then record d { display = display } else d

unfoldable pub display_pass : Bytes → Map Bytes DesiredAttribute → Map Bytes DesiredAttribute
unfolding with_display
display_pass display [] = []
display_pass display ((slug, d) ∷ rest) = (slug, with_display display d) ∷ display_pass display rest
