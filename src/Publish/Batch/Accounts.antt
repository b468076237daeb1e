-- ===== src/Publish/Batch/Accounts.antt =====
-- What a publish of internal/publish/publish.go acknowledges of the metrics of its batch.
use mathlib.Core.Path.{subst}
use omnistat.Prelude.{
  List-cases, ℕ, zero, suc, ◌+◌, ◌≤◌, Bool, true, false, Bytes, bytes_eq, bytes_eq_iff, bytes_Eq,
  Map, lookup, lookup-insert, List, [], ◌∷◌, ◌++◌, Option, none, some, ◌≡◌, ◌≢◌, ◌⊎◌, refl, ap, ◌∙◌,
  arith, length, take, take_all, inl, inr, if◌then◌else◌,
}
use omnistat.Settle.{Result-cases}
use omnistat.Collect.Sample.{Sample, Batch as SampleBatch}
use omnistat.Collect.Buffer.{or_zero}
use omnistat.Collect.Buffer.Snapshots.{of_slug}
use omnistat.Publish.Types.{Api, Metric, Outcome, Publisher, PublishError, bump, nothing_done}
use omnistat.Publish.Render.{Formats, render}
use omnistat.Publish.Update.{DimResult, update_dims}
use omnistat.Publish.Send.{bump_all, send_chunks}
use omnistat.Publish.Send.Accounts.{send_chunks-Sent, send_chunks-recording}
use omnistat.Publish.Batch.{
  DimBatch, MetricBatch, no_dims, no_metrics, render_metric, render_metrics, rendered, print_batch,
  send_batch, after_dims, batch_is_empty, publish, add_link, render_dims,
}

-- How many metrics of a slug a list holds.
unfoldable pub count : Bytes → List Metric → ℕ
count k [] = 0
count k (x ∷ xs) = if bytes_eq x.slug k then suc (count k xs) else count k xs

count-append : (k : Bytes) (xs ys : List Metric) → count k (xs ++ ys) ≡ count k xs + count k ys
unfolding count
count-append k [] ys = omega arith
count-append k (x ∷ xs) ys = ground (arith, count-append k xs ys)

count-take : (k : Bytes) (n : ℕ) (xs : List Metric) → count k (take n xs) ≤ count k xs
unfolding count
count-take k zero xs = omega arith
count-take k (suc n) [] = omega arith
count-take k (suc n) (x ∷ xs) = ground (arith, count-take k n xs)

lookup-bump_all :
    (k : Bytes) (xs : List Metric) (m : Map Bytes ℕ)
    → or_zero (lookup k (bump_all xs m)) ≡ or_zero (lookup k m) + count k xs
unfolding bump_all bump count
lookup-bump_all k [] m = omega arith
lookup-bump_all k (x ∷ xs) m =
    lookup-bump_all k xs (bump x.slug m)
    ∙ ground
        (arith, lookup-insert x.slug k (or_zero (lookup x.slug m) + 1) m, bytes_eq_iff x.slug k)

-- Each sample becomes a metric, or is acknowledged since it cannot be rendered.
module _ (f : Formats) (p : Publisher) (k : Bytes) where
  abbrev tally : MetricBatch → ℕ
  tally d = or_zero (lookup k d.acked) + count k d.metrics

  tally-render_metric :
      (s : Sample) (d : MetricBatch)
      → tally (render_metric f p s d) ≡ (if bytes_eq s.slug k then suc (tally d) else tally d)
  unfolding render_metric count bump
  tally-render_metric s d = elim (Result-cases (render f p.list_items s)) [
    | inl (e, h) ↦
        rw (h, render_metric)
          (ground (
            arith,
            lookup-insert s.slug k (or_zero (lookup s.slug d.acked) + 1) d.acked,
            bytes_eq_iff s.slug k,
          ))
    | inr (v, h) ↦
        rw (h, render_metric)
          (ground (
            arith,
            count-append k d.metrics (
                record { slug = s.slug; value = omnistat.Publish.Batch.text_of v; at = s.at } ∷ []),
          ))
  ]

  tally-render_metrics :
      (ss : List Sample) (d : MetricBatch)
      → tally (render_metrics f p ss d) ≡ tally d + length (of_slug k ss)
  unfolding render_metrics of_slug
  tally-render_metrics [] d = omega arith
  tally-render_metrics (s ∷ ss) d =
      tally-render_metrics ss (render_metric f p s d) ∙ ground (arith, tally-render_metric s d)

complete_count : {e : Option PublishError} {m n : ℕ} → (e ≢ none) ⊎ (m ≡ n) → e ≡ none → m ≡ n
complete_count (inl h) e = absurd (h e)
complete_count (inr h) e = h

-- At most `total` samples of the slug are acknowledged, and exactly that many without an error.
abbrev pub Acks : Bytes → ℕ → Outcome × Option PublishError → Type 0
Acks k total (o, e) =
    (or_zero (lookup k o.ack.metrics) ≤ total)
    × (e ≡ none → or_zero (lookup k o.ack.metrics) ≡ total)

module _ {S : Type 0} (api : Api S) (f : Formats) (p : Publisher) (k : Bytes) where
  send-Acks :
      (ms : List Metric) (res : Outcome) (s : S)
      → Acks k
          (or_zero (lookup k res.ack.metrics) + count k ms)
          (send_chunks api p.entity_id (length ms) ms res s).0
  send-Acks ms res s = rw (← send_chunks-recording api p.entity_id (length ms) ms res s []) (
      let sent = send_chunks-Sent api p.entity_id (length ms) ms res s [] (omega arith) in
      let tallied = lookup-bump_all k (take sent.count ms) res.ack.metrics in
      let acked = ap (λ (m : Map Bytes ℕ). or_zero (lookup k m)) sent.acked in
      (
        omega (arith, acked, tallied, count-take k sent.count ms),
        λ e.
            let all : take sent.count ms ≡ ms =
              take_all sent.count ms (omega (arith, complete_count sent.complete e)) in
            acked ∙ tallied ∙ ap (λ xs. or_zero (lookup k res.ack.metrics) + count k xs) all,
      ))

  after_dims-Acks :
      (m : MetricBatch) (res : Outcome) (r : DimResult) (e : Option PublishError) (s : S)
      → res.ack.metrics ≡ m.acked
      → Acks k (tally f p k m) (after_dims api f p m res ((r, e), s)).0
  unfolding after_dims
  after_dims-Acks m res r (some x) s h = rw h (omega arith, λ e. cc)
  after_dims-Acks m res r none s h = rw (← h) (send-Acks m.metrics _ s)

  send_batch-Acks :
      (d : DimBatch) (m : MetricBatch) (s : S)
      → Acks k (tally f p k m) (send_batch api f p d m (rendered d m) s).0
  unfolding send_batch rendered
  send_batch-Acks d m s = elim (List-cases d.dims) [
    | inl none_left ↦ rw (none_left, send_batch) (send-Acks m.metrics _ s)
    | inr (x, xs, some_left) ↦
        rw (some_left, send_batch)
          (let answer = update_dims api p.entity_id d.dims s in
            after_dims-Acks m (rendered d m) answer.0.0 answer.0.1 answer.1 refl)
  ]

  print_batch-Acks :
      (d : DimBatch) (m : MetricBatch) (s : S)
      → Acks k (tally f p k m) (print_batch api f p d m (rendered d m) s).0
  unfolding print_batch rendered
  print_batch-Acks d m s =
      let all = lookup-bump_all k m.metrics m.acked in (omega (arith, all), λ e. all)

  Acks-if :
      (c : Bool) (x y : (Outcome × Option PublishError) × S) {total : ℕ}
      → (c ≡ true → Acks k total x.0)
      → (c ≡ false → Acks k total y.0)
      → Acks k total (if c then x else y).0
  Acks-if true x y hx hy = hx refl
  Acks-if false x y hx hy = hy refl

  metrics_of_empty : (b : SampleBatch) → batch_is_empty b ≡ true → b.metrics ≡ []
  unfolding batch_is_empty
  metrics_of_empty b h = ground arith

  -- A publish acknowledges of each metric at most the samples in the batch, and all of them unless
  -- it ends with an error.
  pub publish-Acks :
      (b : SampleBatch) (s : S) → Acks k (length (of_slug k b.metrics)) (publish api f p b s).0
  unfolding publish
  publish-Acks b s =
      let d = add_link p.host_link (render_dims f p b.dims no_dims) in
      let m = render_metrics f p b.metrics no_metrics in
      let total : tally f p k m ≡ length (of_slug k b.metrics) =
        tally-render_metrics f p k b.metrics no_metrics ∙ (unfold lookup count in omega arith) in
      Acks-if (batch_is_empty b) ((nothing_done, none), s) _
        (λ empty. rw (metrics_of_empty b empty) (unfold lookup of_slug in (omega arith, λ e. refl)))
        (λ full.
          Acks-if p.printing (print_batch api f p d m (rendered d m) s) _
            (λ dry.
              let printed = print_batch api f p d m (rendered d m) s in
              subst (λ n. Acks k n printed.0) total (print_batch-Acks d m s))
            (λ wet.
              let sent = send_batch api f p d m (rendered d m) s in
              subst (λ n. Acks k n sent.0) total (send_batch-Acks d m s)))
