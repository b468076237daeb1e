-- ===== src/Collect/Observe/Collected.antt =====
-- internal/collect/scheduler.go: the samples and the faults of the observations of a collection.
use omnistat.Prelude.{
  ℕ, true, false, Bytes, bytes_Eq, lookup, List, [], ◌∷◌, none, some, ◌≡◌, ◌≢◌, ◌⊎◌,
}
use omnistat.Settle.{ok, err}
use omnistat.Manifest.{DesiredAttribute}
use omnistat.Identity.Keys.{valid_key}
use omnistat.Collect.Sample.{Target, host, Sample}
use omnistat.Collect.Validate.{validate}
use omnistat.Collect.Validate.Renders.{Canonical}
use omnistat.Collect.Observe.{
  Observation, Entity, Source, TargetError, no_entity, other_template, Dropped, host_link,
  unsupported_here, undeclared, wrong_entity, invalid_key, invalid_value, or_blank, is_set,
}

-- The observation names no entity.
abbrev pub IsBlank : Entity → Type 0
IsBlank e = (e.template ≡ []) × (e.key ≡ [])

-- What the entity of the module is to the buffers.
abbrev pub entity_target : Source → Entity → Target
entity_target src e = record {
  module_name = src.module_name;
  template = or_blank (lookup e.template src.entities);
  key = e.key;
}

-- The host for an attribute of the host, and an entity of the attribute's template otherwise.
abbrev pub Placed : Source → DesiredAttribute → Entity → Target → Type 0
Placed src attr e t =
    (IsBlank e × (attr.entity_template ≡ []) × (t ≡ host))
    ⊎ ((¬ IsBlank e)
        × (e.template ≡ attr.entity_template)
        × (t ≡ entity_target src e)
        × ((t ≡ host) ⊎ (valid_key e.key ≡ none)))

-- The attribute that the module has under the key.
pub record Declared (src : Source) (key : Bytes) (attr : DesiredAttribute) : Type 0 where
  pub found : lookup key src.attrs ≡ some attr
  pub no_link : is_set (lookup key src.links) ≡ false

-- The sample of an observation: of the attribute its key declares, with its value made canonical,
-- taken at the instant, and for its entity.
pub record From (src : Source) (at : ℕ) (o : Observation) (s : Sample) : Type 0 where
  pub attr : DesiredAttribute
  pub declared : Declared src o.key attr
  pub key_same : s.key ≡ o.key
  pub slug_same : s.slug ≡ attr.slug
  pub kind_same : s.kind ≡ attr.kind
  pub module_same : s.module_name ≡ src.module_name
  pub at_same : s.at ≡ at
  pub checked : validate attr o.value ≡ ok s.value
  pub canonical : Canonical attr.kind attr.options s.value
  pub placed : Placed src attr o.entity s.target

abbrev pub Misplaced : DesiredAttribute → Entity → TargetError → Type 0
Misplaced attr e no_entity = IsBlank e × (attr.entity_template ≢ [])
Misplaced attr e (other_template got wanted) =
    (¬ IsBlank e)
    × (e.template ≢ attr.entity_template)
    × (got ≡ e.template)
    × (wanted ≡ attr.entity_template)

-- The observation has the fault that it was dropped for.
abbrev pub Refused : Source → Observation → Dropped → Type 0
Refused src o host_link = is_set (lookup o.key src.links) ≡ true
Refused src o unsupported_here =
    (is_set (lookup o.key src.links) ≡ false)
    × (lookup o.key src.attrs ≡ none)
    × (is_set (lookup o.key src.unsupported) ≡ true)
Refused src o undeclared =
    (is_set (lookup o.key src.links) ≡ false)
    × (lookup o.key src.attrs ≡ none)
    × (is_set (lookup o.key src.unsupported) ≡ false)
Refused src o (wrong_entity e) =
    (attr : DesiredAttribute) × Declared src o.key attr × Misplaced attr o.entity e
Refused src o (invalid_key e) =
    (attr : DesiredAttribute) × Declared src o.key attr × (valid_key o.entity.key ≡ some e)
Refused src o (invalid_value e) =
    (attr : DesiredAttribute) × Declared src o.key attr × (validate attr o.value ≡ err e)

-- Each observation in its order: dropped for its own fault, or the next sample.
pub data Collected (src : Source) (at : ℕ)
    : List Observation → List Dropped → List Sample → Type 0 where
  all_seen : Collected src at [] [] []
  dropped :
      {o : Observation} {os : List Observation} {d : Dropped} {ds : List Dropped} {ss : List Sample}
      → Refused src o d
      → Collected src at os ds ss
      → Collected src at (o ∷ os) (d ∷ ds) ss
  added :
      {o : Observation} {os : List Observation} {ds : List Dropped} {s : Sample} {ss : List Sample}
      → From src at o s
      → Collected src at os ds ss
      → Collected src at (o ∷ os) ds (s ∷ ss)
