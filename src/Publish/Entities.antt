-- ===== src/Publish/Entities.antt =====
-- internal/publish/entities.go: the host entity first, then each module-owned entity on its own.
pub mod Counted
pub mod Places
pub mod Isolation
use omnistat.Prelude.{
  ℕ, ◌+◌, Bool, true, false, Bytes, bytes_Eq, Map, lookup, insert, List, [], ◌∷◌, Option, none,
  some, if◌then◌else◌,
}
use omnistat.Settle.{Result, ok, err}
use omnistat.Identity.Api.{Outcome as Resolution, would_create}
use omnistat.Collect.Sample.{Target, target_Eq, Batch, Ack}
use omnistat.Collect.Buffer.{Buffer, snapshot, ack}
use omnistat.Collect.Buffers.{Buffers, targets, for_target}
use omnistat.Publish.Types.{
  Api, Publisher, HostLink, EntityLabel, Outcome, PublishError, entity_gone, nothing_done,
}
use omnistat.Publish.Render.{Formats}
use omnistat.Publish.Batch.{publish, batch_is_empty}

-- The interface that identity.Keyed implements: the entity's id and how it was found, by module,
-- template and key.
pub record Resolver (E S : Type 0) : Type 0 where
  pub resolve : Bytes → Bytes → Bytes → S → Result E (Bytes × Resolution) × S
  pub forget : Bytes → Bytes → S → S

pub record Entities : Type 0 where
  pub host : Publisher
  pub host_link : Map Bytes Bytes

-- Result.add: the acknowledgement and the entity counts are left alone.
unfoldable pub add_counts : Outcome → Outcome → Outcome
add_counts r o = record r {
  dimensions = r.dimensions + o.dimensions;
  observations = r.observations + o.observations;
  requests = r.requests + o.requests;
  dropped = r.dropped + o.dropped;
}

is_would_create : Resolution → Bool
is_would_create would_create = true
is_would_create _ = false

-- The copy of the host's publisher that publishes to one entity.
unfoldable pub publisher_of : Entities → Target → Bytes → Resolution → Publisher
unfolding is_would_create
publisher_of e t id outcome =
    let p = record e.host {
      entity_id = id;
      entity = some (record {
        module_name = t.module_name;
        template = t.template;
        key = t.key;
        would_create = is_would_create outcome;
      });
    } in
    elim (lookup t.template e.host_link) [
      | none ↦ p
      | some slug ↦ elim slug [
        | [] ↦ p
        | c ∷ cs ↦ record p {
          host_link =
              some (record {
                module_name = t.module_name;
                slug = c ∷ cs;
                entity_id = e.host.entity_id;
              });
        }
      ]
    ]

unfoldable pub is_gone : PublishError → Bool
is_gone (entity_gone id) = true
is_gone _ = false

abbrev pub fail_entity : Outcome → Outcome
fail_entity r = record r { entities_failed = r.entities_failed + 1 }

abbrev pub count_entity : Outcome → Outcome
count_entity r = record r { entities = r.entities + 1 }

module _ {E S : Type 0} (api : Api S) (f : Formats) (resolver : Resolver E S) (e : Entities) where
  -- What follows from the error of one entity's publish.
  unfoldable pub settle_entity : Target → Option PublishError → Outcome → S → Outcome × S
  settle_entity t none total s = (count_entity total, s)
  settle_entity t (some x) total s = elim (is_gone x) [
    | true ↦ (fail_entity total, resolver.forget t.template t.key s)
    | false ↦ (fail_entity total, s)
  ]

  -- One entity whose record is found.
  unfoldable pub publish_resolved :
      Target → Buffer → Bytes → Resolution → Buffers × Outcome → S → (Buffers × Outcome) × S
  publish_resolved t buf id outcome (bufs, total) s =
      let batch = snapshot buf in
      let ((res, x), s') = publish api f (publisher_of e t id outcome) batch s in
      let (total', s'') = settle_entity t x (add_counts total res) s' in
      ((record bufs { targets = insert t (ack buf batch res.ack) bufs.targets }, total'), s'')

  -- One pass of the loop.
  unfoldable pub publish_entity : Target → Buffers × Outcome → S → (Buffers × Outcome) × S
  publish_entity t (bufs, total) s = elim (for_target bufs t) [
    | none ↦ ((bufs, total), s)
    | some buf ↦
        if batch_is_empty (snapshot buf)
        then ((bufs, total), s)
        else (let (r, s') = resolver.resolve t.module_name t.template t.key s in
            elim r [
              | err x ↦ ((bufs, fail_entity total), s')
              | ok (id, outcome) ↦ publish_resolved t buf id outcome (bufs, total) s'
            ])
  ]

  unfoldable pub publish_entities : List Target → Buffers × Outcome → S → (Buffers × Outcome) × S
  publish_entities [] x s = (x, s)
  publish_entities (t ∷ ts) x s = let (x', s') = publish_entity t x s in publish_entities ts x' s'

  -- The loop, and the host's error that the caller gets.
  unfoldable pub publish_rest :
      Option PublishError → Buffers × Outcome → S → ((Buffers × Outcome) × Option PublishError) × S
  publish_rest host_error (bufs, total) s =
      let (x, s') = publish_entities (targets bufs) (bufs, total) s in ((x, host_error), s')

  -- What follows from the host's publish: a host that is gone ends it all.
  unfoldable pub after_host :
      Option PublishError → Buffers × Outcome → S → ((Buffers × Outcome) × Option PublishError) × S
  after_host none x s = publish_rest none x s
  after_host (some g) x s = elim (is_gone g) [
    | true ↦ ((x, some g), s)
    | false ↦ publish_rest (some g) x s
  ]

  unfoldable pub publish_all : Buffers → S → ((Buffers × Outcome) × Option PublishError) × S
  publish_all bufs s =
      let batch = snapshot bufs.host_buffer in
      let ((res, x), s') = publish api f e.host batch s in
      if batch_is_empty batch
      then publish_rest none (bufs, nothing_done) s
      else after_host x
          (
            record bufs { host_buffer = ack bufs.host_buffer batch res.ack },
            add_counts nothing_done res,
          )
          s'
