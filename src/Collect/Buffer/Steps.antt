-- ===== src/Collect/Buffer/Steps.antt =====
-- What Add and Ack of internal/collect/buffer.go do to the queue of each metric.
use omnistat.Prelude.{
  ℕ, Bytes, bytes_eq, bytes_eq_iff, bytes_Eq, Map, Unique, lookup, lookup-insert, [], ◌∷◌, Option,
  none, some, ◌≡◌, refl, sym, ◌&&◌, arith, ◌==◌, if◌then◌else◌, Option-cases, inl, inr, ◌∙◌,
}
use omnistat.Collect.Sample.{Sample, Batch, Ack, is_metric}
use omnistat.Collect.Buffer.{
  Queue, Buffer, empty_queue, or_empty, queue_of, push, add, ack_queue, ack_metric, ack_metrics,
  ack,
}

-- `Add` pushes a metric sample onto the queue of its slug, and leaves every other queue alone.
pub queue_of-add :
    (b : Buffer) (s : Sample) (slug : Bytes)
    → queue_of (add b s) slug ≡ (
        if is_metric s && bytes_eq s.slug slug
        then push b.max (queue_of b slug) s
        else queue_of b slug)
unfolding add queue_of
queue_of-add b s slug = ground (
  arith,
  lookup-insert s.slug slug (push b.max (queue_of b s.slug) s) b.metrics,
  bytes_eq_iff s.slug slug,
)

-- What `Ack` does to a queue, given the batch's start and the accepted count of its slug.
unfoldable pub settled : Option ℕ → Option ℕ → Queue → Queue
settled none n q = q
settled (some first) none q = q
settled (some first) (some n) q = if n == 0 then q else ack_queue first n q

ack_queue-empty : (first n : ℕ) → ack_queue first n empty_queue ≡ empty_queue
unfolding ack_queue
ack_queue-empty first n = ground arith

settled-empty : (start : Option ℕ) (n : ℕ) → settled start (some n) empty_queue ≡ empty_queue
unfolding settled
settled-empty none n = refl
settled-empty (some first) n = ground (arith, ack_queue-empty first n)

lookup-ack_metric :
    (start : Map Bytes ℕ) (m : Map Bytes Queue) (k : Bytes) (n : ℕ) (j : Bytes)
    → or_empty (lookup j (ack_metric start m k n)) ≡ (
        if bytes_eq k j
        then settled (lookup k start) (some n) (or_empty (lookup k m))
        else or_empty (lookup j m))
unfolding ack_metric settled
lookup-ack_metric start m k n j = elim (Option-cases (lookup k m)) [
  | inl absent ↦ ground (arith, absent, bytes_eq_iff k j, settled-empty (lookup k start) n)
  | inr (q, found) ↦ elim (Option-cases (lookup k start)) [
    | inl unsent ↦ ground (arith, found, unsent, bytes_eq_iff k j)
    | inr (first, sent) ↦
        ground (arith, found, sent, lookup-insert k j (ack_queue first n q) m, bytes_eq_iff k j)
  ]
]

settled-none : (start : Option ℕ) (q : Queue) → settled start none q ≡ q
unfolding settled
settled-none none q = refl
settled-none (some first) q = refl

pub lookup-ack_metrics :
    (start : Map Bytes ℕ) (m : Map Bytes Queue) (a : Map Bytes ℕ) (j : Bytes)
    → Unique a
    → or_empty (lookup j (ack_metrics start m a))
      ≡ settled (lookup j start) (lookup j a) (or_empty (lookup j m))
unfolding ack_metrics lookup
lookup-ack_metrics start m [] j u = sym (settled-none (lookup j start) (or_empty (lookup j m)))
lookup-ack_metrics start m ((k, n) ∷ a) j u =
    lookup-ack_metrics start (ack_metric start m k n) a j u.1
    ∙ ground (
      arith,
      lookup-ack_metric start m k n j,
      bytes_eq_iff k j,
      u.0,
      settled-none (lookup j start) (settled (lookup j start) (some n) (or_empty (lookup j m))),
    )

-- `Ack` settles the queue of each metric by its own count.
pub queue_of-ack :
    (b : Buffer) (batch : Batch) (a : Ack) (slug : Bytes)
    → Unique a.metrics
    → queue_of (ack b batch a) slug
      ≡ settled (lookup slug batch.start) (lookup slug a.metrics) (queue_of b slug)
unfolding queue_of ack
queue_of-ack b batch a slug u = lookup-ack_metrics batch.start b.metrics a.metrics slug u
