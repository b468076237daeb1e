-- ===== src/Collect/Observe.antt =====
-- internal/collect/scheduler.go, collectOne and targetOf: the observations of one collection become
-- samples, or are dropped.
pub mod Collected
pub mod Addressed
use omnistat.Prelude.{
  ℕ, Bool, true, false, Bytes, bytes_eq, bytes_Eq, Map, lookup, List, [], ◌∷◌, ◌++◌, Option, none,
  some, if◌then◌else◌, not, ◌&&◌,
}
use omnistat.Settle.{Result, ok, err}
use omnistat.Manifest.{DesiredAttribute}
use omnistat.Values.{Value}
use omnistat.Identity.Keys.{KeyError, valid_key}
use omnistat.Collect.Sample.{Target, host, is_host, Sample}
use omnistat.Collect.Buffers.{Buffers, add}
use omnistat.Collect.Validate.{ValidateError, validate}

pub record Entity : Type 0 where
  pub template : Bytes
  pub key : Bytes

pub record Observation : Type 0 where
  pub key : Bytes
  pub value : Value
  pub entity : Entity

-- The provider is the caller's; the interval is in nanoseconds, and 0 if it is not positive.
pub record Source : Type 0 where
  pub module_name : Bytes
  pub interval : ℕ
  pub attrs : Map Bytes DesiredAttribute
  pub unsupported : Map Bytes Bool
  pub links : Map Bytes Bool
  pub entities : Map Bytes Bytes

pub data TargetError : Type 0 where
  no_entity : TargetError
  other_template : Bytes → Bytes → TargetError

-- e == Entity{}
unfoldable pub is_host_entity : Entity → Bool
is_host_entity e = bytes_eq e.template [] && bytes_eq e.key []

abbrev pub or_blank : Option Bytes → Bytes
or_blank none = []
or_blank (some s) = s

unfoldable pub target_of : Source → DesiredAttribute → Entity → Result TargetError Target
target_of src attr e =
    if is_host_entity e && bytes_eq attr.entity_template []
    then ok host
    else if is_host_entity e
    then err no_entity
    else if not (bytes_eq e.template attr.entity_template)
    then err (other_template e.template attr.entity_template)
    else ok (record {
      module_name = src.module_name;
      template = or_blank (lookup e.template src.entities);
      key = e.key;
    })

pub data Dropped : Type 0 where
  host_link unsupported_here undeclared : Dropped
  wrong_entity : TargetError → Dropped
  invalid_key : KeyError → Dropped
  invalid_value : ValidateError → Dropped

unfoldable pub is_set : Option Bool → Bool
is_set none = false
is_set (some b) = b

-- An observation with its attribute and its target.
with_value : Source → ℕ → Observation → DesiredAttribute → Target → Result Dropped Sample
with_value src at o attr t = elim (validate attr o.value) [
  | err e ↦ err (invalid_value e)
  | ok v ↦ ok (record {
    module_name = src.module_name;
    key = o.key;
    slug = attr.slug;
    kind = attr.kind;
    value = v;
    at = at;
    target = t;
  })
]

with_target : Source → ℕ → Observation → DesiredAttribute → Result Dropped Sample
with_target src at o attr = elim (target_of src attr o.entity) [
  | err e ↦ err (wrong_entity e)
  | ok t ↦ if is_host t then with_value src at o attr t else elim (valid_key t.key) [
    | some e ↦ err (invalid_key e)
    | none ↦ with_value src at o attr t
  ]
]

-- The body of the loop.
unfoldable pub observe : Source → ℕ → Observation → Result Dropped Sample
unfolding is_set with_target with_value
observe src at o =
    if is_set (lookup o.key src.links) then err host_link else elim (lookup o.key src.attrs) [
      | none ↦
          if is_set (lookup o.key src.unsupported) then err unsupported_here else err undeclared
      | some attr ↦ with_target src at o attr
    ]

unfoldable pub observe_all : Source → ℕ → List Observation → Buffers → List Dropped × Buffers
observe_all src at [] b = ([], b)
observe_all src at (o ∷ os) b = elim (observe src at o) [
  | err d ↦ let (ds, b') = observe_all src at os b in (d ∷ ds, b')
  | ok s ↦ observe_all src at os (add b s)
]

-- A collection that fails adds nothing. What the provider returned is an argument; a panic of it
-- is an error.
unfoldable pub collect_one :
    Source → ℕ → Result Bytes (List Observation) → Buffers → Option Bytes × (List Dropped × Buffers)
collect_one src at (err e) b = (some e, ([], b))
collect_one src at (ok os) b = (none, observe_all src at os b)
