-- ===== src/Collect/Buffer/Rounds.antt =====
-- A publish round of internal/collect/buffer.go: Snapshot, then any number of Adds while the
-- batch is sent, then Ack.
use Prim.Native.Nat.{min, max}
use omnistat.Prelude.{
  ℕ, ◌+◌, ◌-◌, ◌^◌, ◌≤◌, ◌<◌, Bytes, bytes_Eq, Map, Unique, lookup, insert-Unique, List, [], ◌∷◌,
  Option, none, some, ◌≡◌, refl, ◌∙◌, arith, ◌==◌, if◌then◌else◌, Bool-cases, Option-cases, inl,
  inr, length, drop, length-append,
}
use omnistat.Collect.Sample.{Sample, Batch, Ack}
use omnistat.Collect.Buffer.{
  Queue, Buffer, or_zero, queue_of, add, snapshot, ack, ack_queue, ack_metric, ack_metrics,
}
use omnistat.Collect.Buffer.Queues.{
  Tracks, push-removed, ack_queue-Tracks, removed-ack_queue, length-items,
}
use omnistat.Collect.Buffer.Steps.{queue_of-add, settled, queue_of-ack}
use omnistat.Collect.Buffer.Snapshots.{start-snapshot}
use omnistat.Collect.Buffer.Sound.{
  Logs, logged, Sound, add_all, log_all, add_all-Sound, add-Sound, length-logged,
}

max-ack : (b : Buffer) (batch : Batch) (a : Ack) → (ack b batch a).max ≡ b.max
unfolding ack
max-ack b batch a = refl

ack_metric-Unique :
    (start : Map Bytes ℕ) (m : Map Bytes Queue) (k : Bytes) (n : ℕ)
    → Unique m
    → Unique (ack_metric start m k n)
ack_metric-Unique start m k n u = elim (Option-cases (lookup k m)) [
  | inl absent ↦ unfold ack_metric in rw (absent, ack_metric) u
  | inr (q, found) ↦ elim (Option-cases (lookup k start)) [
    | inl unsent ↦ unfold ack_metric in rw (found, ack_metric) (rw (unsent, ack_metric) u)
    | inr (first, sent) ↦ elim (Bool-cases (n == 0)) [
      | inl nothing ↦
          unfold ack_metric in rw (found, ack_metric) (rw (sent, ack_metric) (rw nothing u))
      | inr some_n ↦
          unfold ack_metric in
          rw (found, ack_metric)
            (rw (sent, ack_metric) (rw some_n (insert-Unique k (ack_queue first n q) m u)))
    ]
  ]
]

ack_metrics-Unique :
    (start : Map Bytes ℕ) (m : Map Bytes Queue) (a : Map Bytes ℕ)
    → Unique m
    → Unique (ack_metrics start m a)
unfolding ack_metrics
ack_metrics-Unique start m [] u = u
ack_metrics-Unique start m ((k, n) ∷ a) u =
    ack_metrics-Unique start (ack_metric start m k n) a (ack_metric-Unique start m k n u)

abbrev pub Fits : Batch → Ack → Type 0
Fits batch a = (k : Bytes) → or_zero (lookup k batch.start) + or_zero (lookup k a.metrics) < 2 ^ 64

settled-Tracks :
    (bound : ℕ) (log : List Sample) (q : Queue) (start n : Option ℕ)
    → length log < 2 ^ 64
    → or_zero start + or_zero n < 2 ^ 64
    → Tracks bound log q
    → Tracks bound log (settled start n q)
unfolding settled
settled-Tracks bound log q none n small fits t = t
settled-Tracks bound log q (some first) none small fits t = t
settled-Tracks bound log q (some first) (some n) small fits t = elim (Bool-cases (n == 0)) [
  | inl h ↦ rw h t
  | inr h ↦ rw h (ack_queue-Tracks t first n small fits)
]

ack-Unique :
    (b : Buffer) (batch : Batch) (a : Ack) → Unique b.metrics → Unique (ack b batch a).metrics
unfolding ack
ack-Unique b batch a u = ack_metrics-Unique batch.start b.metrics a.metrics u

-- Ack keeps a buffer of fewer than 2 ^ 64 samples a bounded window on the samples added, for an
-- acknowledgement without repeated slugs whose indices do not wrap around.
pub ack-Sound :
    (b : Buffer) (batch : Batch) (a : Ack) {logs : Logs}
    → Sound b logs
    → ((k : Bytes) → length (logs k) < 2 ^ 64)
    → Unique a.metrics
    → Fits batch a
    → Sound (ack b batch a) logs
ack-Sound b batch a {logs} v small u fits = record {
  positive = rw max-ack v.positive;
  unique = ack-Unique b batch a v.unique;
  tracked = λ k.
      rw (queue_of-ack b batch a k u, max-ack)
        (settled-Tracks b.max (logs k) (queue_of b k) (lookup k batch.start) (lookup k a.metrics)
          (small k) (fits k) (v.tracked k));
  keyed = v.keyed;
}

removed-settled :
    (bound : ℕ) (log : List Sample) (q : Queue) (start n : Option ℕ)
    → length log < 2 ^ 64
    → or_zero start + or_zero n < 2 ^ 64
    → Tracks bound log q
    → (settled start n q).removed ≡ (
        if or_zero n == 0 then q.removed else elim start [
          | none ↦ q.removed
          | some first ↦ max q.removed (min (first + or_zero n) (length log))
        ])
unfolding settled
removed-settled bound log q none n small fits t = ground arith
removed-settled bound log q (some first) none small fits t = refl
removed-settled bound log q (some first) (some n) small fits t =
    ground (arith, removed-ack_queue t first n small fits)

logged-le : (logs : Logs) (s : Sample) (k : Bytes) → length (logs k) ≤ length (logged logs s k)
logged-le logs s k = ground (arith, length-append (logs k) (s ∷ []))

pub length-log_all :
    (logs : Logs) (ss : List Sample) (k : Bytes)
    → (length (logs k) ≤ length (log_all logs ss k))
      × (length (log_all logs ss k) ≤ length (logs k) + length ss)
length-log_all logs [] k = omega arith
length-log_all logs (s ∷ ss) k =
    omega (arith, length-log_all (logged logs s) ss k, length-logged logs s k, logged-le logs s k)

removed-add :
    (b : Buffer) (s : Sample) (k : Bytes) {logs : Logs}
    → Sound b logs
    → length (logs k) < 2 ^ 64 - 1
    → (queue_of b k).removed ≤ (queue_of (add b s) k).removed
removed-add b s k v small = rw queue_of-add (ground (arith, push-removed (v.tracked k) s small))

removed-add_all :
    (b : Buffer) (ss : List Sample) (k : Bytes) {logs : Logs}
    → Sound b logs
    → ((j : Bytes) → length (logs j) + length ss < 2 ^ 64)
    → (queue_of b k).removed ≤ (queue_of (add_all b ss) k).removed
unfolding add_all
removed-add_all b [] k v small = omega arith
removed-add_all b (s ∷ ss) k {logs} v small = omega (
  arith,
  removed-add b s k v (omega (arith, small k)),
  removed-add_all (add b s) ss k (add-Sound b s v (λ j. omega (arith, small j)))
      (λ j. omega (arith, small j, length-logged logs s j)),
)

-- The absolute index below which everything of a metric is gone after the round.
abbrev pub kept_from : Buffer → List Sample → Ack → Bytes → ℕ
kept_from b ss a k =
    max (queue_of (add_all b ss) k).removed ((queue_of b k).removed + or_zero (lookup k a.metrics))

module _ (b : Buffer) (ss : List Sample) (a : Ack) {logs : Logs} (v : Sound b logs)
    (small : (k : Bytes) → length (logs k) + length ss < 2 ^ 64) (unique : Unique a.metrics)
    (accepted : (k : Bytes) → or_zero (lookup k a.metrics) ≤ length (queue_of b k).items) where
  start_sent :
      (k : Bytes)
      → or_zero (lookup k (snapshot b).start) + or_zero (lookup k a.metrics) ≤ length (logs k)
  start_sent k =
      rw (start-snapshot b k v.unique) (ground (arith, accepted k, length-items (v.tracked k)))

  round-Sound : Sound (ack (add_all b ss) (snapshot b) a) (log_all logs ss)
  round-Sound =
      ack-Sound (add_all b ss) (snapshot b) a (add_all-Sound b ss v small)
        (λ k. omega (arith, small k, length-log_all logs ss k)) unique
        (λ k. omega (arith, start_sent k, small k))

  round-removed :
      (k : Bytes) → (queue_of (ack (add_all b ss) (snapshot b) a) k).removed ≡ kept_from b ss a k
  round-removed k =
      let t = (add_all-Sound b ss v small).tracked k in
      rw (queue_of-ack (add_all b ss) (snapshot b) a k unique) (
        removed-settled _ _ _ (lookup k (snapshot b).start) (lookup k a.metrics)
          (omega (arith, small k, length-log_all logs ss k)) (omega (arith, start_sent k, small k))
          t
        ∙ ground (
          arith,
          start-snapshot b k v.unique,
          accepted k,
          length-items (v.tracked k),
          removed-add_all b ss k v small,
          length-log_all logs ss k,
        ))

  -- For a sound buffer of fewer than 2 ^ 64 samples, after a snapshot, any samples added meanwhile
  -- and an acknowledgement within the batch without repeated slugs, a metric's queue holds exactly
  -- the samples from the absolute index `kept_from` on, in order.
  pub publish_round :
      (k : Bytes)
      → queue_of (ack (add_all b ss) (snapshot b) a) k ≡ record {
        items = drop (kept_from b ss a k) (log_all logs ss k);
        removed = kept_from b ss a k;
      }
  publish_round k = ground (arith, round-removed k, (round-Sound.tracked k).pending)
