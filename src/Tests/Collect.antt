-- ===== src/Tests/Collect.antt =====
-- Runs of internal/collect: the buffers of two entities, a collection, and a failing module.
use omnistat.Prelude.{
  ℕ, ◌+◌, ◌≤◌, false, codes, bytes_eq, bytes_Eq, lookup, insert, List, [], ◌∷◌, some, none, ◌≡◌,
  ◌⊎◌, refl, arith, All,
}
use omnistat.Settle.{ok}
use omnistat.Manifest.{Desired, is_reference, collectable, Kind, DesiredAttribute, is_list}
use omnistat.Values.{Value, NumType, is_finite, to_float}
use omnistat.Collect.Sample.{Sample, Target, target_Eq, target_eq, is_host}
use omnistat.Collect.Buffer.{new_buffer}
use omnistat.Collect.Buffer.Sound.{add_all}
use omnistat.Collect.Buffers.{new_buffers, Buffers, add, add_new, max_keys_per_module, keys_of}
use omnistat.Collect.Buffers.Cap.{of_module, add_each, of_module-add_each}
use omnistat.Collect.Buffers.Isolation.{only, add_each-none}
use omnistat.Collect.Validate.{validate, validate_kind, validate_number}
use omnistat.Collect.Validate.Renders.{Canonical, validate-Canonical, validate-renders}
use omnistat.Collect.Observe.{Observation, Source, observe_all}
use omnistat.Collect.Observe.Addressed.{observe_all-Collected}
use omnistat.Collect.Observe.Collected.{Collected}
use omnistat.Collect.Sources.{
  Module, sources, add_modules, add_module, schedule, new_source, classify_all, classify,
  entity_slugs, platform_union, union_from,
}
use omnistat.Collect.Sources.Scheduled.{Scheduled, sources-Scheduled}
use omnistat.Collect.Failures.{
  Event, failure, success, report, happen_all, no_failures, failures_of, all_told, or_zero,
}
use omnistat.Publish.Types.{Rendered}
use omnistat.Publish.Render.{render_value}
use omnistat.Tests.Buffer.{load}
use omnistat.Tests.Publish.{formats}

abbrev disk : Target
disk = record { module_name = codes "disk"; template = codes "disks"; key = codes "sda" }

abbrev reading : ℕ → Sample
reading at = record (load at) { module_name = codes "disk"; target = disk }

abbrev samples : List Sample
samples = load 1 ∷ reading 2 ∷ load 3 ∷ []

disk_is_no_host : is_host disk ≡ false
unfolding is_host target_eq bytes_eq
disk_is_no_host = refl

of_module-add_each_example :
    of_module (codes "disk") (add_each (new_buffers 2) samples).targets ≤ 256
of_module-add_each_example = of_module-add_each 2 samples (codes "disk")

no_disk : lookup disk (new_buffers 2).targets ≡ none
unfolding new_buffers lookup
no_disk = refl

add_each-none_example :
    ((lookup disk (add_each (new_buffers 2) samples).targets ≡ none)
      × ((only disk samples ≡ [])
          ⊎ (max_keys_per_module ≤ keys_of (add_each (new_buffers 2) samples) (codes "disk"))))
    ⊎ (lookup disk (add_each (new_buffers 2) samples).targets
        ≡ some (add_all (new_buffer (new_buffers 2).max) (only disk samples)))
add_each-none_example = add_each-none (new_buffers 2) samples disk disk_is_no_host no_disk

abbrev one_disk : Buffers
one_disk = add_each (new_buffers 2) (reading 1 ∷ [])

has_disk : lookup disk one_disk.targets ≡ some (add_all (new_buffer 2) (reading 1 ∷ []))
unfolding add_each add add_new is_host target_eq bytes_eq new_buffers lookup insert add_all
has_disk = refl

abbrev attribute : DesiredAttribute
attribute = record {
  slug = codes "cpu_load";
  name = codes "Load";
  description = [];
  kind = Kind.metric;
  options = [];
  templates = codes "host" ∷ [];
  module_name = codes "cpu";
  key = codes "load";
  platforms = [];
  entity_template = [];
  target = [];
  display = [];
}

one_is_valid : validate attribute (Value.num NumType.uint8 0) ≡ ok (Value.num NumType.float64 0)
unfolding validate validate_kind validate_number is_finite to_float
one_is_valid = refl

validate-Canonical_example : Canonical Kind.metric [] (Value.num NumType.float64 0)
validate-Canonical_example =
    validate-Canonical attribute (Value.num NumType.uint8 0) (Value.num NumType.float64 0)
      one_is_valid

validate-renders_example :
    (r : Rendered) × (render_value formats []
        (codes "cpu_load")
        Kind.metric
        (Value.num NumType.float64 0)
      ≡ ok r)
unfolding is_list
validate-renders_example =
    validate-renders formats [] attribute (Value.num NumType.uint8 0) (Value.num NumType.float64 0)
      one_is_valid (λ o l c. absurd (ground (arith, l)))

abbrev source : Source
source = record {
  module_name = codes "cpu";
  interval = 60;
  attrs = (codes "load", attribute) ∷ [];
  unsupported = [];
  links = [];
  entities = [];
}

abbrev observations : List Observation
observations =
    record {
      key = codes "load";
      value = Value.num NumType.uint8 0;
      entity = record { template = []; key = [] };
    }
    ∷ record {
      key = codes "other";
      value = Value.null;
      entity = record { template = []; key = [] };
    }
    ∷ []

observe_all-Collected_example :
    (ss : List Sample) × Collected source 7 observations
      (observe_all source 7 observations (new_buffers 2)).0
      ss
    × ((observe_all source 7 observations (new_buffers 2)).1 ≡ add_each (new_buffers 2) ss)
observe_all-Collected_example = observe_all-Collected source 7 observations (new_buffers 2)

abbrev events : List Event
events =
    failure (codes "disk") (codes "timeout")
    ∷ failure (codes "disk") (codes "timeout")
    ∷ report
    ∷ success (codes "disk")
    ∷ []

all_told_example :
    let (f, told) =
      happen_all (codes "disk") events (no_failures, record { warnings = 0; repeats = 0 }) in
    told.warnings + (told.repeats + or_zero (lookup (codes "disk") f.pending)) ≡ 2
unfolding failures_of bytes_eq
all_told_example = all_told (codes "disk") events

abbrev modules : List Module
modules =
    record { name = codes "cpu"; default_interval = some 60 }
    ∷ record { name = codes "idle"; default_interval = some 60 }
    ∷ record { name = codes "os"; default_interval = none }
    ∷ []

abbrev wanted : Desired
wanted = record { host = codes "host"; templates = []; attributes = attribute ∷ [] }

abbrev scheduled : Source
scheduled = record source { interval = 30 }

-- The module with no attribute is reported as skipped, and the one without a provider is not.
modules_run :
    sources wanted ((codes "cpu", 30) ∷ []) (codes "linux") modules
    ≡ ok (
      scheduled ∷ [],
      record { module_name = codes "idle"; key = []; slug = []; platforms = [] } ∷ [],
    )
unfolding sources add_modules add_module schedule new_source classify_all classify entity_slugs
    platform_union union_from lookup insert bytes_eq is_reference collectable
modules_run = refl

sources-Scheduled_example : All (Scheduled (codes "linux")) (scheduled ∷ [])
sources-Scheduled_example =
    sources-Scheduled (codes "linux") wanted ((codes "cpu", 30) ∷ []) modules (scheduled ∷ [])
      (record { module_name = codes "idle"; key = []; slug = []; platforms = [] } ∷ []) modules_run
