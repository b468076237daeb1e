-- ===== src/Collect/Buffer/Queues.antt =====
-- One metric's queue in internal/collect/buffer.go, against the list of all samples that were
-- ever appended to it.
use Prim.Native.Nat.{min, max}
use mathlib.Core.Path.{ap}
use omnistat.Prelude.{
  ℕ, ◌+◌, ◌-◌, ◌^◌, ◌≤◌, ◌<◌, List, [], ◌∷◌, ◌++◌, ◌≡◌, refl, sym, ◌∙◌, leb, length, drop,
  length-append, length-drop, drop-append, drop-drop, arith, Bool-cases, inl, inr,
}
use omnistat.Collect.Sample.{Sample}
use omnistat.Collect.Buffer.{Queue, empty_queue, u64, push, ack_queue}

pub record Tracks (bound : ℕ) (log : List Sample) (q : Queue) : Type 0 where
  pub pending : q.items ≡ drop q.removed log
  pub counted : q.removed ≤ length log
  pub bounded : length q.items ≤ bound

pub Tracks-empty : (bound : ℕ) → Tracks bound [] empty_queue
Tracks-empty bound = record { pending = refl; counted = omega arith; bounded = omega arith }

module _ {bound : ℕ} {log : List Sample} {q : Queue} (t : Tracks bound log q) where
  pub length-items : length q.items + q.removed ≡ length log
  length-items =
      omega (arith, ap (length {0} {A = Sample}) t.pending, length-drop q.removed log, t.counted)

  drop-push :
      (k : ℕ) (s : Sample)
      → k ≤ length q.items
      → drop k q.items ++ s ∷ [] ≡ drop (q.removed + k) (log ++ s ∷ [])
  drop-push k s h =
      ap (λ l. drop k l ++ s ∷ []) t.pending
      ∙ ap (λ l. l ++ s ∷ []) (drop-drop q.removed k log)
      ∙ sym (drop-append (q.removed + k) log (s ∷ []) (omega (arith, length-items)))

  -- An append keeps the queue a window on the log, one sample longer.
  pub push-Tracks :
      (s : Sample)
      → 0 < bound
      → length log < 2 ^ 64 - 1
      → Tracks bound (log ++ s ∷ []) (push bound q s)
  unfolding push
  push-Tracks s pos small = elim (Bool-cases (leb bound (length q.items))) [
    | inl full ↦
        let step : u64 (q.removed + 1) ≡ q.removed + 1 = omega (arith, t.counted) in
        let many : 1 ≤ length q.items = ground arith in
        rw (full, step)
          (record {
            pending = drop-push 1 s many;
            counted = omega (arith, length-append log (s ∷ []), t.counted);
            bounded =
                omega (
                  arith,
                  length-append (drop 1 q.items) (s ∷ []),
                  length-drop 1 q.items,
                  t.bounded,
                );
          })
    | inr room ↦
        let fits : length q.items < bound = ground arith in
        rw room (record {
          pending =
              ap (λ l. l ++ s ∷ []) t.pending ∙ sym (drop-append q.removed log (s ∷ []) t.counted);
          counted = omega (arith, length-append log (s ∷ []), t.counted);
          bounded = omega (arith, length-append q.items (s ∷ []));
        })
  ]

  pub push-removed : (s : Sample) → length log < 2 ^ 64 - 1 → q.removed ≤ (push bound q s).removed
  unfolding push
  push-removed s small = ground (arith, t.counted)

  -- How many samples an acknowledgement of `n` samples from `start` removes.
  pub ack_queue-eq :
      (start n : ℕ)
      → length log < 2 ^ 64
      → start + n < 2 ^ 64
      → ack_queue start n q ≡ record {
        items = drop (min (start + n - q.removed) (length q.items)) q.items;
        removed = q.removed + min (start + n - q.removed) (length q.items);
      }
  unfolding ack_queue
  ack_queue-eq start n small fits = ground (arith, length-items)

  pub ack_queue-Tracks :
      (start n : ℕ)
      → length log < 2 ^ 64
      → start + n < 2 ^ 64
      → Tracks bound log (ack_queue start n q)
  ack_queue-Tracks start n small fits =
      let k = min (start + n - q.removed) (length q.items) in
      rw (ack_queue-eq start n small fits) (record {
        pending = ap (drop k) t.pending ∙ drop-drop q.removed k log;
        counted = omega (arith, length-items);
        bounded = omega (arith, length-drop k q.items, t.bounded);
      })

  -- The absolute index moves up to `start + n`, and never back.
  pub removed-ack_queue :
      (start n : ℕ)
      → length log < 2 ^ 64
      → start + n < 2 ^ 64
      → (ack_queue start n q).removed ≡ max q.removed (min (start + n) (length log))
  removed-ack_queue start n small fits =
      ap (λ (r : Queue). r.removed) (ack_queue-eq start n small fits) ∙ omega (arith, length-items)
