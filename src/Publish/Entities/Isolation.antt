-- ===== src/Publish/Entities/Isolation.antt =====
-- internal/publish/entities.go: what a publish of everything does to one entity's buffer.
use omnistat.Prelude.{
  Bytes, Bool, true, ◌++◌, if◌then◌else◌, false, bytes_Eq, lookup, List, ◌∷◌, Option, none, some,
  ◌≡◌, ◌⊎◌,
}
use omnistat.Settle.{ok, err}
use omnistat.Collect.Sample.{Target, target_Eq}
use omnistat.Collect.Buffer.{Buffer, snapshot, ack}
use omnistat.Collect.Buffers.{Buffers, targets}
use omnistat.Collect.Buffers.Distinct.{Distinct}
use omnistat.Publish.Types.{Api, Publisher, Outcome, nothing_done}
use omnistat.Publish.Render.{Formats}
use omnistat.Publish.Batch.{publish, batch_is_empty}
use omnistat.Publish.Entities.{Resolver, Entities, add_counts, publish_entities}
use omnistat.Identity.Api.{Outcome as Resolution}

module _ {E S : Type 0} (api : Api S) (f : Formats) (resolver : Resolver E S) (e : Entities) where
  -- A publisher to the record `id` of an entity, which is otherwise as the host's.
  abbrev pub PublishesTo : Target → Bytes → Publisher → Type 0
  PublishesTo u id p =
      (p.entity_id ≡ id)
      × ((w : Bool) × (p.entity
            ≡ some (record {
              module_name = u.module_name;
              template = u.template;
              key = u.key;
              would_create = w;
            })))
      × (p.printing ≡ e.host.printing)
      × (p.list_items ≡ e.host.list_items)
      × (p.pending_options ≡ e.host.pending_options)

  -- What is left of a buffer whose entity's turn comes in the state `s`: all of it if there is
  -- nothing to send or no record is found, and otherwise what the acknowledgement leaves that the
  -- publish of its own snapshot to its own record returns.
  abbrev pub Turn : Target → Buffer → S → Option Buffer → Type 0
  Turn u buf s after =
      let (found, s') = resolver.resolve u.module_name u.template u.key s in
      ((batch_is_empty (snapshot buf) ≡ true) × (after ≡ some buf))
      ⊎ ((x : E) × (found ≡ err x) × (after ≡ some buf))
      ⊎ ((id : Bytes) × (outcome : Resolution) × (p : Publisher) × (found ≡ ok (id, outcome))
          × (batch_is_empty (snapshot buf) ≡ false)
          × PublishesTo u id p
          × (after ≡ some (ack buf (snapshot buf) (publish api f p (snapshot buf) s').0.0.ack)))

  -- The state of everything after the host's own publish.
  abbrev pub host_published : Buffers → S → (Buffers × Outcome) × S
  host_published bufs s =
      let batch = snapshot bufs.host_buffer in
      let ((res, _), s') = publish api f e.host batch s in
      if batch_is_empty batch then ((bufs, nothing_done), s) else (
        (
          record bufs { host_buffer = ack bufs.host_buffer batch res.ack },
          add_counts nothing_done res,
        ),
        s',
      )

  -- When the turn of an entity with a buffer comes after those of `xs`.
  abbrev pub OwnTurn : Buffers → S → Target → Option Buffer → Type 0
  OwnTurn bufs s u after =
      let (x, s') = host_published bufs s in
      (buf : Buffer) × (xs : List Target) × (ys : List Target) × (lookup u bufs.targets ≡ some buf)
      × (targets bufs ≡ xs ++ u ∷ ys)
      × Turn u buf (publish_entities api f resolver e xs x s').1 after

  -- The loop over the entities, from what the host's publish left.
  abbrev Rest : Buffers × Outcome → S → Target → Option Buffer → Type 0
  Rest x s u after =
      ((lookup u x.0.targets ≡ none) × (after ≡ none))
      ⊎ ((buf : Buffer) × (xs : List Target) × (ys : List Target) × (lookup u x.0.targets
            ≡ some buf)
          × (targets x.0 ≡ xs ++ u ∷ ys)
          × Turn u buf (publish_entities api f resolver e xs x s).1 after)
