-- ===== src/Identity/Api.antt =====
-- internal/identity/api.go: what resolution needs of the platform, and the outcomes of
-- internal/identity/resolve.go. `S` is the state of the platform and of the calls' record.
use omnistat.Prelude.{ℕ, Bool, Bytes, Map, List}
use omnistat.Settle.{Result}

-- The errors that the package tells apart.
pub data ApiError : Type 0 where
  key_taken : ApiError
  other_error : Bytes → ApiError

pub record EntitySummary : Type 0 where
  pub id : Bytes
  pub created_at : ℕ
  pub key : Bytes

-- The attributes of an upsert: slug and text value.
abbrev pub Attrs : Type 0
Attrs = Map Bytes Bytes

pub record Api (S : Type 0) : Type 0 where
  pub find_entities : Bytes → Bytes → Bytes → S → Result ApiError (List EntitySummary) × S
  pub entity_by_key : Bytes → Bytes → S → Result ApiError (Bytes × Bool) × S
  pub upsert_by_key : Bytes → Bytes → Attrs → S → Result ApiError (Bytes × Bool) × S
  pub set_entity_key : Bytes → Bytes → S → Result ApiError (Unit {0}) × S

pub data Outcome : Type 0 where
  found adopted adopted_other_key created would_adopt would_create : Outcome
