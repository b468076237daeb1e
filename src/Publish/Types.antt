-- ===== src/Publish/Types.antt =====
-- internal/publish/api.go and the types of internal/publish/publish.go. `S` is the state of the
-- platform and of what was printed.
use omnistat.Prelude.{
  ℕ, ◌+◌, Bool, Bytes, bytes_Eq, Map, lookup, insert, List, [], Option, none, some,
}
use omnistat.Settle.{Result}
use omnistat.Collect.Sample.{Ack}

-- A rendered value: a string, or a bool.
pub data Rendered : Type 0 where
  text : Bytes → Rendered
  flag : Bool → Rendered

pub record Backfill : Type 0 where
  pub value : Rendered
  pub at : ℕ

pub record Metric : Type 0 where
  pub slug : Bytes
  pub value : Bytes
  pub at : ℕ

-- The errors that the package tells apart; the field errors are there if the error implements
-- `Rejected`.
pub data ApiError : Type 0 where
  not_found : ApiError
  rejected : Option (Map Bytes (List Bytes)) → ApiError
  other_error : Bytes → ApiError

pub record Line : Type 0 where
  pub module_name : Bytes
  pub key : Bytes
  pub slug : Bytes
  pub value : Rendered
  pub at : ℕ
  pub pending_option : Bool

pub record Destination : Type 0 where
  pub entity_id : Bytes
  pub module_name : Bytes
  pub template : Bytes
  pub key : Bytes
  pub would_create : Bool

pub record Api (S : Type 0) : Type 0 where
  pub update_entity : Bytes → Map Bytes Backfill → S → Result ApiError (Unit {0}) × S
  pub ingest_metrics : Bytes → List Metric → S → Result ApiError (Unit {0}) × S
  -- the printer of a dry run
  pub print : Destination → List Line → List Line → S → S

pub record EntityLabel : Type 0 where
  pub module_name : Bytes
  pub template : Bytes
  pub key : Bytes
  pub would_create : Bool

pub record HostLink : Type 0 where
  pub module_name : Bytes
  pub slug : Bytes
  pub entity_id : Bytes

pub record Publisher : Type 0 where
  pub entity_id : Bytes
  pub entity : Option EntityLabel
  pub host_link : Option HostLink
  pub list_items : Map Bytes (Map Bytes Bytes)
  pub pending_options : Map Bytes (Map Bytes Bool)
  -- whether a printer is set
  pub printing : Bool

pub record Outcome : Type 0 where
  pub ack : Ack
  pub dimensions : ℕ
  pub observations : ℕ
  pub requests : ℕ
  pub dropped : ℕ
  pub entities : ℕ
  pub entities_failed : ℕ

pub data PublishError : Type 0 where
  entity_gone : Bytes → PublishError
  update_failed ingest_failed : ApiError → PublishError

abbrev pub nothing_done : Outcome
nothing_done = record {
  ack = record { dims = []; metrics = [] };
  dimensions = 0;
  observations = 0;
  requests = 0;
  dropped = 0;
  entities = 0;
  entities_failed = 0;
}

abbrev or_zero : Option ℕ → ℕ
or_zero none = 0
or_zero (some n) = n

-- m[slug]++
unfoldable pub bump : Bytes → Map Bytes ℕ → Map Bytes ℕ
bump slug m = insert slug (or_zero (lookup slug m) + 1) m
