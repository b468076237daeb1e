-- ===== src/Tests/Buffer.antt =====
-- Runs of internal/collect/buffer.go: two publish rounds of a buffer bounded at two samples.
use omnistat.Prelude.{
  ℕ, ◌<◌, ◌+◌, length, Bool-cases, inl, inr, bytes_eq_iff, ◌^◌, Bytes, codes, bytes_eq, bytes_lt,
  bytes_Eq, Unique, lookup, insert, remove, insert_sorted, sort, List, [], ◌∷◌, some, ◌≡◌, refl,
  arith,
}
use mathlib.Core.Path.{subst}
use omnistat.Manifest.{Kind, is_metric_kind, contains}
use omnistat.Values.{Value, NumType}
use omnistat.Collect.Sample.{Sample, Ack, host, is_metric}
use omnistat.Collect.Buffer.{
  Buffer, or_zero, queue_of, push, add, new_buffer, snapshot, values, pending_slugs, gather, ack,
  snap_times, ack_dim, ack_dims, ack_queue, ack_metric, ack_metrics,
}
use omnistat.Collect.Buffer.Snapshots.{of_slug}
use omnistat.Collect.Buffer.Sound.{
  Sound, no_logs, new_buffer-Sound, add_all, log_all, add_all-Sound,
}
use omnistat.Collect.Buffer.Rounds.{ack-Sound, length-log_all, Fits}
use omnistat.Collect.Buffer.Dims.{DimsSound, dims_round, was_sent}

abbrev pub load : ℕ → Sample
load at = record {
  module_name = codes "cpu";
  key = codes "load";
  slug = codes "cpu_load";
  kind = Kind.metric;
  value = Value.num NumType.float64 1;
  at = at;
  target = host;
}

abbrev pub model : ℕ → Sample
model at = record (load at) {
  key = codes "model";
  slug = codes "cpu_model";
  kind = Kind.text;
  value = Value.str (codes "x");
}

abbrev pub early : List Sample
early = load 1 ∷ model 1 ∷ load 2 ∷ []

abbrev pub late : List Sample
late = load 3 ∷ model 3 ∷ []

abbrev pub filled : Buffer
filled = add_all (new_buffer 2) early

pub filled-Sound : Sound filled (log_all no_logs early)
filled-Sound = add_all-Sound (new_buffer 2) early (new_buffer-Sound 2) (λ k. omega arith)

abbrev one_accepted : Ack
one_accepted = record { dims = codes "cpu_model" ∷ []; metrics = (codes "cpu_load", 1) ∷ [] }

-- all that the tests compute with
program : Unit {0}
unfolding add_all add push queue_of new_buffer snapshot values pending_slugs gather ack snap_times
    ack_dim ack_dims ack_queue ack_metric ack_metrics lookup insert remove insert_sorted sort
    bytes_eq bytes_lt is_metric is_metric_kind of_slug contains was_sent
program = tt

pub early_small : (k : Bytes) → length (log_all no_logs early k) + 2 < 2 ^ 64
early_small k = omega (arith, length-log_all no_logs early k)

add_all-Sound_example : Sound filled (log_all no_logs early)
add_all-Sound_example = add_all-Sound (new_buffer 2) early (new_buffer-Sound 2) (λ k. omega arith)

sent-Fits : Fits (snapshot filled) one_accepted
unfolding program
sent-Fits k = elim (Bool-cases (bytes_eq (codes "cpu_load") k)) [
  | inl same ↦
      subst
        (λ j.
          or_zero (lookup j (snapshot filled).start) + or_zero (lookup j one_accepted.metrics)
          < 2 ^ 64)
        ((bytes_eq_iff (codes "cpu_load") k).0 same) (omega arith)
  | inr other ↦ rw (other, lookup) (omega arith)
]

one_accepted-Unique : Unique one_accepted.metrics
unfolding lookup
one_accepted-Unique = (refl, tt)

ack-Sound_example : Sound (ack filled (snapshot filled) one_accepted) (log_all no_logs early)
ack-Sound_example =
    ack-Sound filled (snapshot filled) one_accepted filled-Sound (λ k. omega (arith, early_small k))
      one_accepted-Unique sent-Fits

filled-DimsSound : DimsSound filled
unfolding program
filled-DimsSound = record { unique = (refl, tt); keyed = (refl, tt) }

-- the model read at instant 3 stays, although the one of instant 1 was accepted
dims_round_example :
    lookup (codes "cpu_model") (ack (add_all filled late) (snapshot filled) one_accepted).dims
    ≡ some (model 3)
unfolding program
dims_round_example = dims_round filled late one_accepted (codes "cpu_model") filled-DimsSound
