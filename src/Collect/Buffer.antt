-- ===== src/Collect/Buffer.antt =====
-- internal/collect/buffer.go: the samples of one entity between two publishes. The mutex makes
-- each method one step; a method that changes `*Buffer` returns the new record.
pub mod Queues
pub mod Steps
pub mod Snapshots
pub mod Sound
pub mod Rounds
pub mod Dims
use omnistat.Prelude.{
  ℕ, ◌+◌, ◌-◌, ◌%◌, ◌^◌, Bool, true, false, Bytes, bytes_eq, bytes_lt, Map, lookup, insert, remove,
  bytes_Eq, List, [], ◌∷◌, ◌++◌, map, Option, none, some, ltb, leb, ◌==◌, ◌&&◌, length, drop, sort,
  insert_sorted, if◌then◌else◌,
}
use omnistat.Collect.Sample.{Sample, Batch, Ack, is_metric}

abbrev pub default_max_per_metric : ℕ
default_max_per_metric = 5000

-- uint64 arithmetic wraps.
abbrev pub u64 : ℕ → ℕ
u64 n = n % 2 ^ 64

pub record Queue : Type 0 where
  pub items : List Sample
  pub removed : ℕ

abbrev pub empty_queue : Queue
empty_queue = record { items = []; removed = 0 }

pub record Buffer : Type 0 where
  pub max : ℕ
  pub dims : Map Bytes Sample
  pub metrics : Map Bytes Queue
  pub drops : Map Bytes ℕ

unfoldable pub new_buffer : ℕ → Buffer
new_buffer max_per_metric = record {
  max = if max_per_metric == 0 then default_max_per_metric else max_per_metric;
  dims = [];
  metrics = [];
  drops = [];
}

abbrev pub or_empty : Option Queue → Queue
or_empty none = empty_queue
or_empty (some q) = q

abbrev pub or_zero : Option ℕ → ℕ
or_zero none = 0
or_zero (some n) = n

-- The queue of a metric, empty if there is none yet.
unfoldable pub queue_of : Buffer → Bytes → Queue
queue_of b slug = or_empty (lookup slug b.metrics)

-- The append to one queue: at the bound the oldest sample goes.
unfoldable pub push : ℕ → Queue → Sample → Queue
push max q s =
    if leb max (length q.items)
    then record { items = drop 1 q.items ++ s ∷ []; removed = u64 (q.removed + 1) }
    else record q { items = q.items ++ s ∷ [] }

unfoldable pub add : Buffer → Sample → Buffer
add b s =
    if is_metric s
    then record b {
      metrics = insert s.slug (push b.max (queue_of b s.slug) s) b.metrics;
      drops =
          if leb b.max (length (queue_of b s.slug).items)
          then insert s.slug (or_zero (lookup s.slug b.drops) + 1) b.drops
          else b.drops;
    }
    else record b { dims = insert s.slug s b.dims }

-- The loop over the metrics in `Empty` and the test of `Snapshot`.
unfoldable pub no_items : Map Bytes Queue → Bool
no_items [] = true
no_items ((slug, q) ∷ m) = (length q.items == 0) && no_items m

unfoldable pub is_empty : Buffer → Bool
unfolding no_items
is_empty b = (length b.dims == 0) && no_items b.metrics

unfoldable pub values {ℓ κ} : {K : Type ℓ} {V : Type κ} → Map K V → List V
values [] = []
values ((k, v) ∷ m) = v ∷ values m

-- The metrics with something pending, in the order in which Go ranges over the map.
unfoldable pub pending_slugs : Map Bytes Queue → List Bytes
pending_slugs [] = []
pending_slugs ((slug, q) ∷ m) =
    let rest = pending_slugs m in if length q.items == 0 then rest else slug ∷ rest

-- The last loop of `Snapshot`.
unfoldable pub gather : Buffer → List Bytes → Batch → Batch
unfolding queue_of
gather b [] out = out
gather b (slug ∷ slugs) out =
    let q = queue_of b slug in
    gather b slugs
      (record out { metrics = out.metrics ++ q.items; start = insert slug q.removed out.start })

abbrev pub slug_lt : Sample → Sample → Bool
slug_lt s t = bytes_lt s.slug t.slug

unfoldable pub snapshot : Buffer → Batch
unfolding values pending_slugs gather
snapshot b =
    gather b (sort bytes_lt (pending_slugs b.metrics))
      (record { dims = sort slug_lt (values b.dims); metrics = []; start = [] })

-- The map from each dimension of the batch to the instant of its sample.
unfoldable pub snap_times : List Sample → Map Bytes ℕ → Map Bytes ℕ
snap_times [] m = m
snap_times (s ∷ ss) m = snap_times ss (insert s.slug s.at m)

-- One dimension is forgotten only if the buffer still holds the sample that was sent.
unfoldable pub ack_dim : Map Bytes ℕ → Map Bytes Sample → Bytes → Map Bytes Sample
ack_dim snap dims slug = elim (lookup slug dims) [
  | none ↦ dims
  | some cur ↦ if cur.at == or_zero (lookup slug snap) then remove slug dims else dims
]

unfoldable pub ack_dims : Map Bytes ℕ → Map Bytes Sample → List Bytes → Map Bytes Sample
ack_dims snap dims [] = dims
ack_dims snap dims (slug ∷ slugs) = ack_dims snap (ack_dim snap dims slug) slugs

-- The first `n` samples from the absolute index `start` are accepted.
unfoldable pub ack_queue : ℕ → ℕ → Queue → Queue
ack_queue start n q =
    let end = u64 (start + n) in
    let wanted = u64 (end + 2 ^ 64 - q.removed) in
    let count = if ltb (length q.items) wanted then length q.items else wanted in
    if leb end q.removed
    then q
    else record { items = drop count q.items; removed = u64 (q.removed + count) }

unfoldable pub ack_metric : Map Bytes ℕ → Map Bytes Queue → Bytes → ℕ → Map Bytes Queue
unfolding ack_queue
ack_metric start metrics slug n = elim (lookup slug metrics) [
  | none ↦ metrics
  | some q ↦ elim (lookup slug start) [
    | none ↦ metrics
    | some first ↦ if n == 0 then metrics else insert slug (ack_queue first n q) metrics
  ]
]

unfoldable pub ack_metrics : Map Bytes ℕ → Map Bytes Queue → Map Bytes ℕ → Map Bytes Queue
ack_metrics start metrics [] = metrics
ack_metrics start metrics ((slug, n) ∷ rest) =
    ack_metrics start (ack_metric start metrics slug n) rest

unfoldable pub ack : Buffer → Batch → Ack → Buffer
ack b batch a = record b {
  dims = ack_dims (snap_times batch.dims []) b.dims a.dims;
  metrics = ack_metrics batch.start b.metrics a.metrics;
}

unfoldable pub take_drops : Buffer → Map Bytes ℕ × Buffer
take_drops b = (b.drops, record b { drops = [] })
