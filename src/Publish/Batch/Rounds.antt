-- ===== src/Publish/Batch/Rounds.antt =====
-- A publish of internal/publish/publish.go together with the buffer of internal/collect/buffer.go:
-- Snapshot, Publish, and Ack of what it returned, as internal/publish/entities.go composes them.
use omnistat.Prelude.{
  List-cases, ℕ, ◌+◌, ◌≤◌, ◌<◌, ◌^◌, Bool, true, false, Bytes, bytes_Eq, Map, Unique, insert-Unique,
  lookup, List, [], ◌∷◌, Option, none, some, ◌≡◌, ap, arith, length, take, drop, inl, inr,
  if◌then◌else◌,
}
use omnistat.Settle.{Result-cases}
use omnistat.Collect.Sample.{Sample, Batch as SampleBatch}
use omnistat.Collect.Buffer.{Buffer, Queue, queue_of, snapshot, ack, or_zero}
use omnistat.Collect.Buffer.Queues.{length-items}
use omnistat.Collect.Buffer.Snapshots.{metrics-snapshot}
use omnistat.Collect.Buffer.Sound.{Logs, Sound, Sound-SlugKeyed, add_all, log_all}
use omnistat.Collect.Buffer.Rounds.{kept_from, publish_round}
use omnistat.Publish.Types.{Api, Metric, Outcome, Publisher, PublishError, bump, nothing_done}
use omnistat.Publish.Render.{Formats, render}
use omnistat.Publish.Update.{DimResult, update_dims}
use omnistat.Publish.Send.{bump_all, send_chunks}
use omnistat.Publish.Send.Accounts.{send_chunks-Sent, send_chunks-recording}
use omnistat.Publish.Batch.{
  DimBatch, MetricBatch, no_dims, no_metrics, render_metric, render_metrics, rendered, print_batch,
  send_batch, after_dims, batch_is_empty, publish, add_link, render_dims,
}
use omnistat.Publish.Batch.Accounts.{publish-Acks}

bump_all-Unique : (xs : List Metric) (m : Map Bytes ℕ) → Unique m → Unique (bump_all xs m)
unfolding bump_all bump
bump_all-Unique [] m u = u
bump_all-Unique (x ∷ xs) m u = bump_all-Unique xs (bump x.slug m) (insert-Unique x.slug _ m u)

render_metric-Unique :
    (f : Formats) (p : Publisher) (s : Sample) (d : MetricBatch)
    → Unique d.acked
    → Unique (render_metric f p s d).acked
unfolding render_metric bump
render_metric-Unique f p s d u = elim (Result-cases (render f p.list_items s)) [
  | inl (e, h) ↦ rw (h, render_metric) (insert-Unique s.slug _ d.acked u)
  | inr (v, h) ↦ rw (h, render_metric) u
]

render_metrics-Unique :
    (f : Formats) (p : Publisher) (ss : List Sample) (d : MetricBatch)
    → Unique d.acked
    → Unique (render_metrics f p ss d).acked
unfolding render_metrics
render_metrics-Unique f p [] d u = u
render_metrics-Unique f p (s ∷ ss) d u =
    render_metrics-Unique f p ss (render_metric f p s d) (render_metric-Unique f p s d u)

abbrev UniqueAcks : Outcome × Option PublishError → Type 0
UniqueAcks (o, e) = Unique o.ack.metrics

module _ {S : Type 0} (api : Api S) (f : Formats) (p : Publisher) where
  send-Unique :
      (ms : List Metric) (res : Outcome) (s : S)
      → Unique res.ack.metrics
      → UniqueAcks (send_chunks api p.entity_id (length ms) ms res s).0
  send-Unique ms res s u = rw (← send_chunks-recording api p.entity_id (length ms) ms res s []) (
      let sent = send_chunks-Sent api p.entity_id (length ms) ms res s [] (omega arith) in
      rw sent.acked (bump_all-Unique (take sent.count ms) res.ack.metrics u))

  after_dims-Unique :
      (m : MetricBatch) (res : Outcome) (r : DimResult) (e : Option PublishError) (s : S)
      → Unique res.ack.metrics
      → UniqueAcks (after_dims api f p m res ((r, e), s)).0
  unfolding after_dims
  after_dims-Unique m res r (some x) s u = u
  after_dims-Unique m res r none s u = send-Unique m.metrics _ s u

  send_batch-Unique :
      (d : DimBatch) (m : MetricBatch) (res : Outcome) (s : S)
      → Unique res.ack.metrics
      → UniqueAcks (send_batch api f p d m res s).0
  unfolding send_batch
  send_batch-Unique d m res s u = elim (List-cases d.dims) [
    | inl none_left ↦ rw (none_left, send_batch) (send-Unique m.metrics res s u)
    | inr (x, xs, some_left) ↦
        rw (some_left, send_batch)
          (let answer = update_dims api p.entity_id d.dims s in
            after_dims-Unique m res answer.0.0 answer.0.1 answer.1 u)
  ]

  UniqueAcks-if :
      (c : Bool) (x y : (Outcome × Option PublishError) × S)
      → UniqueAcks x.0
      → UniqueAcks y.0
      → UniqueAcks (if c then x else y).0
  UniqueAcks-if true x y hx hy = hx
  UniqueAcks-if false x y hx hy = hy

  publish-Unique : (b : SampleBatch) (s : S) → UniqueAcks (publish api f p b s).0
  unfolding publish rendered print_batch
  publish-Unique b s =
      let d = add_link p.host_link (render_dims f p b.dims no_dims) in
      let m = render_metrics f p b.metrics no_metrics in
      let u = render_metrics-Unique f p b.metrics no_metrics tt in
      UniqueAcks-if (batch_is_empty b) ((nothing_done, none), s) _ tt
        (UniqueAcks-if p.printing (print_batch api f p d m (rendered d m) s) _
          (bump_all-Unique m.metrics m.acked u) (send_batch-Unique d m (rendered d m) s u))

module _ {S : Type 0} (api : Api S) (f : Formats) (p : Publisher) (b : Buffer) (ss : List Sample)
    (s : S) {logs : Logs} (v : Sound b logs)
    (small : (k : Bytes) → length (logs k) + length ss < 2 ^ 64) where
  accepted :
      (k : Bytes)
      → or_zero (lookup k (publish api f p (snapshot b) s).0.0.ack.metrics)
        ≤ length (queue_of b k).items
  accepted k = omega (
    arith,
    (publish-Acks api f p k (snapshot b) s).0,
    ap (length {0} {A = Sample}) (metrics-snapshot b k v.unique (Sound-SlugKeyed b v)),
  )

  -- When a sound buffer of fewer than 2 ^ 64 samples is published by its snapshot while more
  -- samples arrive, and the publish's acknowledgement is applied, each metric holds exactly its
  -- samples from `kept_from` on, whatever the platform answers.
  pub publish_and_ack :
      (k : Bytes)
      → let out = (publish api f p (snapshot b) s).0 in
        queue_of (ack (add_all b ss) (snapshot b) out.0.ack) k ≡ record {
          items = drop (kept_from b ss out.0.ack k) (log_all logs ss k);
          removed = kept_from b ss out.0.ack k;
        }
  publish_and_ack k =
      let a = (publish api f p (snapshot b) s).0.0.ack in
      publish_round b ss a v small (publish-Unique api f p (snapshot b) s) accepted k

  -- When a sound buffer of fewer than 2 ^ 64 samples is published by its snapshot without an error
  -- while more samples arrive, everything of a metric that was added before the publish is gone
  -- from the buffer after the acknowledgement.
  pub publish_and_ack_all :
      (k : Bytes)
      → (publish api f p (snapshot b) s).0.1 ≡ none
      → let a = (publish api f p (snapshot b) s).0.0.ack in
        length (logs k) ≤ (queue_of (ack (add_all b ss) (snapshot b) a) k).removed
  publish_and_ack_all k e = omega (
    arith,
    ap (λ (q : Queue). q.removed) (publish_and_ack k),
    (publish-Acks api f p k (snapshot b) s).1 e,
    ap (length {0} {A = Sample}) (metrics-snapshot b k v.unique (Sound-SlugKeyed b v)),
    length-items (v.tracked k),
  )
