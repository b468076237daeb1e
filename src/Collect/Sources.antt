-- ===== src/Collect/Sources.antt =====
-- internal/collect/scheduler.go, Sources and platformUnion: which modules are scheduled, with which
-- attributes. A duration that is not positive is 0.
pub mod Scheduled
use omnistat.Prelude.{
  ℕ, Bool, true, false, not, Bytes, bytes_eq, bytes_lt, bytes_Eq, Map, lookup, insert, List, [],
  ◌∷◌, ◌++◌, Option, none, some, length, ◌==◌, sort, if◌then◌else◌,
}
use omnistat.Settle.{Result, ok, err}
use omnistat.Manifest.{
  is_reference, collectable, contains, DesiredTemplate, DesiredAttribute, Desired,
}
use omnistat.Collect.Observe.{Source}

-- What Sources asks a module for: its name, and its provider's default interval if it has one.
pub record Module : Type 0 where
  pub name : Bytes
  pub default_interval : Option ℕ

pub record Skipped : Type 0 where
  pub module_name : Bytes
  pub key : Bytes
  pub slug : Bytes
  pub platforms : List Bytes

pub data SourcesError : Type 0 where
  -- the names of the modules that have an interval and no provider
  no_values : List Bytes → SourcesError
  bad_interval : Bytes → SourcesError

unfoldable pub add_platforms : List Bytes → List Bytes → List Bytes
add_platforms [] out = out
add_platforms (p ∷ ps) out = add_platforms ps (if contains p out then out else out ++ p ∷ [])

unfoldable pub union_from : List Skipped → List Bytes → List Bytes
union_from [] out = out
union_from (g ∷ gs) out = union_from gs (add_platforms g.platforms out)

unfoldable pub platform_union : List Skipped → List Bytes
platform_union gated = union_from gated []

unfoldable pub entity_slugs : Bytes → List DesiredTemplate → Map Bytes Bytes → Map Bytes Bytes
entity_slugs name [] m = m
entity_slugs name (t ∷ ts) m = elim t.entity [
  | false ↦ entity_slugs name ts m
  | true ↦ elim (bytes_eq t.module_name name) [
    | false ↦ entity_slugs name ts m
    | true ↦ entity_slugs name ts (insert t.key t.slug m)
  ]
]

-- One attribute of the desired schema, if it is the module's.
unfoldable pub classify :
    Bytes → Bytes → DesiredAttribute → Source × List Skipped → Source × List Skipped
classify goos name a (src, gated) =
    if not (bytes_eq a.module_name name)
    then (src, gated)
    else if is_reference a.kind
    then (record src { links = insert a.key true src.links }, gated)
    else if collectable a.platforms goos
    then (record src { attrs = insert a.key a src.attrs }, gated)
    else (
      record src { unsupported = insert a.key true src.unsupported },
      gated
          ++ record { module_name = name; key = a.key; slug = a.slug; platforms = a.platforms }
            ∷ [],
    )

unfoldable pub classify_all :
    Bytes → Bytes → List DesiredAttribute → Source × List Skipped → Source × List Skipped
classify_all goos name [] x = x
classify_all goos name (a ∷ rest) x = classify_all goos name rest (classify goos name a x)

abbrev pub chosen : Option ℕ → ℕ → ℕ
chosen none d = d
chosen (some i) d = i

-- A module's source before its attributes.
unfoldable pub new_source : Desired → Map Bytes ℕ → Bytes → ℕ → Source
new_source d intervals name interval = record {
  module_name = name;
  interval = chosen (lookup name intervals) interval;
  attrs = [];
  unsupported = [];
  links = [];
  entities = entity_slugs name d.templates [];
}

-- What the loop has gathered: the sources, what is skipped, and the problems.
pub record Gathered : Type 0 where
  pub out : List Source
  pub skipped : List Skipped
  pub problems : List Bytes

module _ (d : Desired) (intervals : Map Bytes ℕ) (goos : Bytes) where
  unfoldable pub schedule : Source × List Skipped → Gathered → Gathered
  schedule (src, gated) g = elim src.attrs [
    | [] ↦ record g {
      skipped =
          g.skipped
          ++ record {
            module_name = src.module_name;
            key = [];
            slug = [];
            platforms = platform_union gated;
          }
            ∷ [];
    }
    | _ ∷ _ ↦ record g { skipped = g.skipped ++ gated; out = g.out ++ src ∷ [] }
  ]

  unfoldable pub add_module : Module → Gathered → Result SourcesError Gathered
  add_module m g = elim m.default_interval [
    | none ↦ elim (lookup m.name intervals) [
      | none ↦ ok g
      | some i ↦ ok (record g { problems = g.problems ++ m.name ∷ [] })
    ]
    | some interval ↦
        let src = new_source d intervals m.name interval in
        if src.interval == 0
        then err (bad_interval m.name)
        else ok (schedule (classify_all goos m.name d.attributes (src, [])) g)
  ]

  unfoldable pub add_modules : List Module → Gathered → Result SourcesError Gathered
  add_modules [] g = ok g
  add_modules (m ∷ ms) g = elim (add_module m g) [ err e ↦ err e | ok g' ↦ add_modules ms g' ]

  unfoldable pub sources : List Module → Result SourcesError (List Source × List Skipped)
  sources ms = elim (add_modules ms (record { out = []; skipped = []; problems = [] })) [
    | err e ↦ err e
    | ok g ↦ elim g.problems [
      | [] ↦ ok (g.out, g.skipped)
      | p ∷ ps ↦ err (no_values (sort bytes_lt (p ∷ ps)))
    ]
  ]
