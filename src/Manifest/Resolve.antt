-- ===== src/Manifest/Resolve.antt =====
-- internal/manifest/resolve.go: the operator's overrides, and the desired schema they lead to. The
-- passes of `Resolve` are in the modules below; here are their types and the first pass.
pub mod Templates
pub mod Attributes
pub mod Whole
pub mod Keyed
pub mod Sound
pub mod Complete
pub mod Links
pub mod WellFormed
pub mod Entities
pub mod Moored
use omnistat.Prelude.{
  Bool, true, false, not, ◌&&◌, Bytes, bytes_eq, bytes_Eq, Map, lookup, insert, List, [], ◌∷◌, ◌++◌,
  map, Option, none, some, if◌then◌else◌,
}
use omnistat.Manifest.{contains}
use omnistat.Manifest.Validate.{Manifest, Attribute, valid_slug, host_template}

pub record AttributeOverride : Type 0 where
  pub slug : Bytes
  pub template : Bytes
  pub name : Bytes
  pub description : Bytes

pub record ModuleOverride : Type 0 where
  pub template : Bytes
  pub attributes : Map Bytes AttributeOverride

pub record Overrides : Type 0 where
  pub host_template : Bytes
  pub modules : Map Bytes ModuleOverride

-- What `Resolve` reports: of the overrides, of the entity templates, and of the attributes.
pub data Problem : Type 0 where
  bad_host_template : Bytes → Problem
  unknown_module : Bytes → Problem
  bad_module_template : Bytes → Bytes → Problem
  unknown_attribute : Bytes → Bytes → Problem
  bad_attribute_slug bad_attribute_template : Bytes → Bytes → Bytes → Problem
  moved_together : Bytes → Problem
  entity_is_host : Bytes → Bytes → Problem
  entity_shared : Bytes → Bytes → Bytes → Problem
  moved_off_entity : Bytes → Bytes → Bytes → Problem
  onto_entity : Bytes → Bytes → Bytes → Bytes → Problem
  slug_mapped_twice : Bytes → Bytes → Bytes → Problem
  no_label : Bytes → Bytes → Problem

abbrev pub report_if : Bool → Problem → List Problem
report_if true p = p ∷ []
report_if false p = []

unfoldable pub is_set : Bytes → Bool
is_set [] = false
is_set (c ∷ s) = true

-- What a missing override stands for.
unfoldable pub attribute_override : Option AttributeOverride → AttributeOverride
attribute_override none = record { slug = []; template = []; name = []; description = [] }
attribute_override (some o) = o

unfoldable pub module_override : Option ModuleOverride → ModuleOverride
module_override none = record { template = []; attributes = [] }
module_override (some o) = o

-- An override that is not empty and not a slug.
unfoldable pub is_bad : Bytes → Bool
unfolding is_set
is_bad s = is_set s && not (valid_slug s)

-- An override that counts.
unfoldable pub is_good : Bytes → Bool
unfolding is_set
is_good s = is_set s && valid_slug s

unfoldable pub resolve_host : Bytes → Bytes × List Problem
unfolding is_set
resolve_host s =
    if not (is_set s)
    then (host_template, [])
    else if not (valid_slug s)
    then (host_template, bad_host_template s ∷ [])
    else (s, [])

unfoldable pub by_module : List Manifest → Map Bytes Manifest → Map Bytes Manifest
by_module [] seen = seen
by_module (m ∷ ms) seen = by_module ms (insert m.module_name m seen)

attribute_override_problems : Bytes → List Bytes → Map Bytes AttributeOverride → List Problem
unfolding is_bad
attribute_override_problems name keys [] = []
attribute_override_problems name keys ((key, o) ∷ rest) =
    (if not (contains key keys)
      then unknown_attribute name key ∷ []
      else report_if (is_bad o.slug) (bad_attribute_slug name key o.slug)
        ++ report_if (is_bad o.template) (bad_attribute_template name key o.template))
    ++ attribute_override_problems name keys rest

module_override_problems : Bytes → ModuleOverride → Option Manifest → List Problem
unfolding is_bad attribute_override_problems
module_override_problems name o none = unknown_module name ∷ []
module_override_problems name o (some m) =
    report_if (is_bad o.template) (bad_module_template name o.template)
    ++ attribute_override_problems name (map (λ a. a.key) m.attributes) o.attributes

-- The overrides are checked against the modules that there are.
unfoldable pub override_problems : Map Bytes Manifest → Map Bytes ModuleOverride → List Problem
unfolding module_override_problems
override_problems known [] = []
override_problems known ((name, o) ∷ rest) =
    module_override_problems name o (lookup name known) ++ override_problems known rest
