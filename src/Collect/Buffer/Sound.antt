-- ===== src/Collect/Buffer/Sound.antt =====
-- internal/collect/buffer.go: a buffer against the log of all samples added to it.
use omnistat.Prelude.{
  ℕ, ◌+◌, ◌-◌, ◌^◌, ◌≤◌, ◌<◌, Bool, true, false, Bytes, bytes_eq, bytes_eq_iff, bytes_Eq, Unique,
  lookup, insert-Unique, List, [], ◌∷◌, ◌++◌, ◌≡◌, ◌&&◌, arith, if◌then◌else◌, Bool-cases, inl, inr,
  All, All-append, All-drop, length, length-append,
}
use omnistat.Collect.Sample.{Sample, is_metric}
use omnistat.Collect.Buffer.{Queue, Buffer, queue_of, push, add, new_buffer}
use omnistat.Collect.Buffer.Queues.{Tracks, Tracks-empty, push-Tracks}
use omnistat.Collect.Buffer.Steps.{queue_of-add}
use omnistat.Collect.Buffer.Snapshots.{SlugKeyed}

-- For each metric slug, all samples ever added, in order.
abbrev pub Logs : Type 0
Logs = Bytes → List Sample

abbrev pub no_logs : Logs
no_logs k = []

abbrev pub logged : Logs → Sample → Logs
logged logs s k = if is_metric s && bytes_eq s.slug k then logs k ++ s ∷ [] else logs k

pub record Sound (b : Buffer) (logs : Logs) : Type 0 where
  pub positive : 0 < b.max
  pub unique : Unique b.metrics
  pub tracked : (k : Bytes) → Tracks b.max (logs k) (queue_of b k)
  pub keyed : (k : Bytes) → All (λ s. s.slug ≡ k) (logs k)

pub new_buffer-Sound : (n : ℕ) → Sound (new_buffer n) no_logs
unfolding new_buffer queue_of lookup
new_buffer-Sound n = record {
  positive = ground arith;
  unique = tt;
  tracked = λ k. Tracks-empty _;
  keyed = λ k. tt;
}

pub Sound-SlugKeyed : (b : Buffer) {logs : Logs} → Sound b logs → SlugKeyed b
Sound-SlugKeyed b {logs} v k =
    rw (v.tracked k).pending (All-drop _ (queue_of b k).removed (logs k) (v.keyed k))

max-add : (b : Buffer) (s : Sample) → (add b s).max ≡ b.max
unfolding add
max-add b s = ground arith

add-Unique : (b : Buffer) (s : Sample) → Unique b.metrics → Unique (add b s).metrics
unfolding add
add-Unique b s u = elim (Bool-cases (is_metric s)) [
  | inl m ↦ rw m (insert-Unique s.slug (push b.max (queue_of b s.slug) s) b.metrics u)
  | inr d ↦ rw d u
]

tracked_if :
    (bound : ℕ) (log : List Sample) (q : Queue) (s : Sample) (t : Bool)
    → 0 < bound
    → length log < 2 ^ 64 - 1
    → Tracks bound log q
    → Tracks bound (if t then log ++ s ∷ [] else log) (if t then push bound q s else q)
tracked_if bound log q s true pos small t = push-Tracks t s pos small
tracked_if bound log q s false pos small t = t

keyed_if :
    (log : List Sample) (s : Sample) (k : Bytes) (m : Bool)
    → All (λ x. x.slug ≡ k) log
    → All (λ x. x.slug ≡ k) (if m && bytes_eq s.slug k then log ++ s ∷ [] else log)
keyed_if log s k false h = h
keyed_if log s k true h = elim (Bool-cases (bytes_eq s.slug k)) [
  | inl same ↦
      rw same (All-append (λ x. x.slug ≡ k) log (s ∷ []) h ((bytes_eq_iff s.slug k).0 same, tt))
  | inr other ↦ rw other h
]

-- `Add` keeps the buffer a bounded window on the samples added, and adds one to its slug.
pub add-Sound :
    (b : Buffer) (s : Sample) {logs : Logs}
    → Sound b logs
    → ((k : Bytes) → length (logs k) < 2 ^ 64 - 1)
    → Sound (add b s) (logged logs s)
add-Sound b s {logs} v small = record {
  positive = rw max-add v.positive;
  unique = add-Unique b s v.unique;
  tracked = λ k.
      rw (queue_of-add, max-add)
        (tracked_if b.max (logs k) (queue_of b k) s (is_metric s && bytes_eq s.slug k) v.positive
          (small k) (v.tracked k));
  keyed = λ k. keyed_if (logs k) s k (is_metric s) (v.keyed k);
}

unfoldable pub add_all : Buffer → List Sample → Buffer
add_all b [] = b
add_all b (s ∷ ss) = add_all (add b s) ss

abbrev pub log_all : Logs → List Sample → Logs
log_all logs [] = logs
log_all logs (s ∷ ss) = log_all (logged logs s) ss

pub length-logged :
    (logs : Logs) (s : Sample) (k : Bytes) → length (logged logs s k) ≤ length (logs k) + 1
length-logged logs s k = ground (arith, length-append (logs k) (s ∷ []))

-- Adding samples keeps each queue the window of the newest samples, of at most the bound, as long
-- as fewer than 2 ^ 64 were added.
pub add_all-Sound :
    (b : Buffer) (ss : List Sample) {logs : Logs}
    → Sound b logs
    → ((k : Bytes) → length (logs k) + length ss < 2 ^ 64)
    → Sound (add_all b ss) (log_all logs ss)
unfolding add_all
add_all-Sound b [] v small = v
add_all-Sound b (s ∷ ss) {logs} v small =
    add_all-Sound (add b s) ss (add-Sound b s v (λ k. omega (arith, small k)))
      (λ k. omega (arith, small k, length-logged logs s k))
