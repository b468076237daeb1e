-- ===== src/Tests/Resolve.antt =====
-- Runs of internal/manifest/resolve.go: a module on the host and one with an entity template, whose
-- template is renamed.
use omnistat.Prelude.{
  true, false, Bytes, codes, bytes_eq, bytes_lt, bytes_Eq, lookup, insert, sort, insert_sorted, [],
  ◌∷◌, none, ◌≡◌, refl, if◌then◌else◌, All,
}
use omnistat.Settle.{ok, err}
use omnistat.Manifest.{is_list, contains, Desired, Kind, is_reference}
use omnistat.Manifest.Title.{title_from_slug}
use omnistat.Runes.{runes, is_space, decode_rune}
use omnistat.Manifest.Validate.{
  check_manifests, check_manifest, name_problems, valid_module_name, template_problems,
  host_problems, entities_of, check_attributes, check_attribute, key_problems, is_spaces,
  check_slug, all_space, check_reference, link_problems, option_problems, options_problems,
  platform_problems, valid_kind, host_template, validate, valid_slug, Manifest, Attribute, Rank,
  pos,
}
use omnistat.Manifest.Resolve.{Overrides, unknown_module, slug_mapped_twice}
use omnistat.Manifest.Resolve.Whole.{resolve, find}
use omnistat.Schema.Types.{Current}
use omnistat.Schema.Diff.{diff}
use omnistat.Schema.Diff.Ordered.{Ordered}
use omnistat.Schema.Diff.Ordered.Grounded.{diff-resolve-Ordered}
use omnistat.Manifest.Resolve.WellFormed.{WellFormed, resolve-WellFormed}
use omnistat.Manifest.Resolve.Complete.Found.{Stands, resolve-Stands}

abbrev attribute : Bytes → Bytes → Kind → Bytes → Rank → Attribute
attribute key slug kind template label = record {
  key = key;
  name = slug;
  slug = slug;
  kind = kind;
  description = [];
  options = [];
  template = template;
  target = if is_reference kind then host_template else [];
  label = label;
  platforms = [];
}

abbrev hostname : Manifest
hostname = record {
  module_name = codes "hostname";
  templates = [];
  attributes = attribute (codes "name") (codes "hostname") Kind.text [] (pos 2) ∷ [];
}

abbrev disk : Manifest
disk = record {
  module_name = codes "disk";
  templates =
      record { slug = codes "disk"; name = codes "Disk"; description = []; entity = true } ∷ [];
  attributes =
      attribute (codes "host") (codes "disk_host") Kind.reference (codes "disk") (pos 0)
      ∷ attribute (codes "size") (codes "disk_size") Kind.number (codes "disk") (pos 1)
      ∷ [];
}

abbrev renamed : Overrides
renamed = record {
  host_template = codes "server";
  modules =
      (
        codes "disk",
        record {
          template = codes "drive";
          attributes =
              (
                codes "size",
                record { slug = codes "bytes"; template = []; name = []; description = [] },
              )
              ∷ [];
        },
      )
      ∷ [];
}

abbrev resolved : Desired
resolved = record {
  host = codes "server";
  templates =
      record {
        slug = codes "drive";
        name = codes "Disk";
        description = [];
        entity = true;
        module_name = codes "disk";
        key = codes "disk";
      }
      ∷ record {
        slug = codes "server";
        name = codes "Host";
        description = codes "A machine reporting through omnistat";
        entity = false;
        module_name = [];
        key = [];
      }
      ∷ [];
  attributes =
      record {
        slug = codes "bytes";
        name = codes "disk_size";
        description = [];
        kind = Kind.number;
        options = [];
        templates = codes "drive" ∷ [];
        module_name = codes "disk";
        key = codes "size";
        platforms = [];
        entity_template = codes "disk";
        target = [];
        display = [];
      }
      ∷ record {
        slug = codes "disk_host";
        name = codes "disk_host";
        description = [];
        kind = Kind.reference;
        options = [];
        templates = codes "drive" ∷ [];
        module_name = codes "disk";
        key = codes "host";
        platforms = [];
        entity_template = codes "disk";
        target = codes "server";
        display = codes "hostname";
      }
      ∷ record {
        slug = codes "hostname";
        name = codes "hostname";
        description = [];
        kind = Kind.text;
        options = [];
        templates = codes "server" ∷ [];
        module_name = codes "hostname";
        key = codes "name";
        platforms = [];
        entity_template = [];
        target = [];
        display = [];
      }
      ∷ [];
}

resolve_run : resolve (hostname ∷ disk ∷ []) renamed ≡ ok resolved
unfolding resolve lookup insert bytes_eq bytes_lt sort insert_sorted is_reference valid_slug
    contains
resolve_run = refl

resolve-WellFormed_example : WellFormed resolved
resolve-WellFormed_example = resolve-WellFormed (hostname ∷ disk ∷ []) renamed resolved resolve_run

resolve-Stands_example :
    All (λ m. All (Stands resolved m.module_name) m.attributes) (hostname ∷ disk ∷ [])
resolve-Stands_example = resolve-Stands (hostname ∷ disk ∷ []) renamed resolved resolve_run

validated : validate (hostname ∷ disk ∷ []) ≡ []
unfolding validate check_manifests check_manifest name_problems valid_module_name template_problems
    host_problems entities_of check_attributes check_attribute key_problems is_spaces check_slug
    all_space check_reference link_problems option_problems options_problems platform_problems
    valid_kind runes is_space valid_slug contains lookup is_list is_reference insert bytes_eq
    decode_rune
validated = refl

-- A project without templates and attributes.
abbrev empty_project : Current
empty_project = record { templates = []; attributes = [] }

diff-resolve-Ordered_example : Ordered empty_project [] (diff resolved empty_project).actions
diff-resolve-Ordered_example =
    diff-resolve-Ordered (hostname ∷ disk ∷ []) renamed resolved empty_project validated resolve_run

-- An override of a module that is not enabled.
abbrev stray : Overrides
stray = record {
  host_template = [];
  modules = (codes "gpu", record { template = []; attributes = [] }) ∷ [];
}

unknown : resolve (hostname ∷ []) stray ≡ err (unknown_module (codes "gpu") ∷ [])
unfolding resolve lookup insert bytes_eq bytes_lt sort insert_sorted is_reference valid_slug
    contains
unknown = refl

-- Two attributes under one slug, of which the first keeps it.
twice :
    resolve
      (hostname ∷ record hostname { module_name = codes "fqdn" } ∷ [])
      (record { host_template = []; modules = [] })
    ≡ err (slug_mapped_twice (codes "hostname") (codes "hostname/name") (codes "fqdn/name") ∷ [])
unfolding resolve lookup insert bytes_eq bytes_lt sort insert_sorted is_reference valid_slug
    contains
twice = refl

found :
    (find resolved (codes "disk") (codes "none") ≡ none)
    × (title_from_slug (codes "server_node") ≡ codes "Server Node")
unfolding find bytes_eq title_from_slug
found = (refl, refl)
