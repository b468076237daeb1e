-- ===== src/Publish/Send/Accounts.antt =====
-- The accounts of the chunked ingestion in internal/publish/publish.go.
use native.Mathlib.Decide.{dec_le}
use omnistat.Prelude.{
  ℕ, zero, suc, ◌+◌, ◌≤◌, Bytes, Map, List, [], ◌∷◌, ◌++◌, append-nil, append_assoc, Option, none,
  ◌≡◌, ◌≢◌, ◌⊎◌, refl, sym, ap, ◌∙◌, arith, length, take, drop, length-drop, take-add, take-nil,
  take_all, drop_all, length-take, inl, inr,
}
use omnistat.Settle.{Result, ok, err, Result-cases}
use omnistat.Publish.Types.{
  Api, ApiError, not_found, rejected, other_error, Metric, Outcome, PublishError, bump,
}
use omnistat.Publish.Send.{chunk_size, bump_all, send_chunks}

-- What the platform is done with: chunks that it took, and chunks that it refused.
abbrev note : Result ApiError (Unit {0}) → List Metric → List Metric → List Metric
note (ok u) chunk log = log ++ chunk
note (err not_found) chunk log = log
note (err (other_error x)) chunk log = log
note (err (rejected f)) chunk log = log ++ chunk

-- The same platform, with a list of the metrics that it is done with.
abbrev pub recording : {S : Type 0} → Api S → Api (S × List Metric)
recording api = record {
  update_entity = λ id dims (s, log). let (r, s') = api.update_entity id dims s in (r, (s', log));
  ingest_metrics =
      λ id ms (s, log). let (r, s') = api.ingest_metrics id ms s in (r, (s', note r ms log));
  print = λ to dims metrics (s, log). (api.print to dims metrics s, log);
}

pub record Sent {S : Type 0} (ms : List Metric) (res : Outcome) (log : List Metric)
    (out : (Outcome × Option PublishError) × (S × List Metric)) : Type 0 where
  pub count : ℕ
  pub within : count ≤ length ms
  pub done_with : out.1.1 ≡ log ++ take count ms
  pub acked : out.0.0.ack.metrics ≡ bump_all (take count ms) res.ack.metrics
  pub dims_kept : out.0.0.ack.dims ≡ res.ack.dims
  pub counted : out.0.0.observations + out.0.0.dropped ≡ res.observations + res.dropped + count
  pub complete : (out.0.1 ≢ none) ⊎ (count ≡ length ms)

bump_all-append :
    (xs ys : List Metric) (m : Map Bytes ℕ) → bump_all (xs ++ ys) m ≡ bump_all ys (bump_all xs m)
unfolding bump_all
bump_all-append [] ys m = refl
bump_all-append (x ∷ xs) ys m = bump_all-append xs ys (bump x.slug m)

-- A chunk and the first `k` metrics after it are an initial part of the whole.
take-length-add :
    (n : ℕ) (ms : List Metric) (k : ℕ)
    → take (length (take n ms) + k) ms ≡ take n ms ++ take k (drop n ms)
take-length-add n ms k = elim (dec_le n (length ms)) [
  | yes h ↦
      let e : length (take n ms) ≡ n = omega (arith, length-take n ms) in rw e (take-add n k ms)
  | no h ↦
      let all = take_all n ms (omega arith) in
      let nothing = drop_all n ms (omega arith) in
      rw (nothing, all, take-nil, append-nil) (take_all (length ms + k) ms (omega arith))
]

all_or_error : {A B C : Type 0} → A ⊎ B → (B → C) → A ⊎ C
all_or_error (inl a) f = inl a
all_or_error (inr b) f = inr (f b)

module _ {S : Type 0} (api : Api S) (entity_id : Bytes) where
  -- One chunk that the platform is done with, and then the others.
  Sent-chunk :
      (ms : List Metric) (res mid : Outcome) (log log' : List Metric)
      (out : (Outcome × Option PublishError) × (S × List Metric))
      → log' ≡ log ++ take chunk_size ms
      → mid.ack.metrics ≡ bump_all (take chunk_size ms) res.ack.metrics
      → mid.ack.dims ≡ res.ack.dims
      → mid.observations + mid.dropped
        ≡ res.observations + res.dropped + length (take chunk_size ms)
      → Sent (drop chunk_size ms) mid log' out
      → Sent ms res log out
  Sent-chunk ms res mid log log' out logged bumped kept counted rest =
      let first = length (take chunk_size ms) in
      let split = take-length-add chunk_size ms rest.count in
      record {
        count = first + rest.count;
        within = omega (arith, rest.within, length-drop chunk_size ms, length-take chunk_size ms);
        done_with = rest.done_with ∙ rw (logged, append_assoc, split) refl;
        acked = rest.acked ∙ rw (bumped, split, bump_all-append) refl;
        dims_kept = rest.dims_kept ∙ kept;
        counted = omega (arith, rest.counted, counted);
        complete =
            all_or_error rest.complete
              (λ h. omega (arith, h, length-drop chunk_size ms, length-take chunk_size ms));
      }

  -- A publish that ends before the next chunk.
  Sent-none :
      (ms : List Metric) (res : Outcome) (log log' : List Metric) (s : S) (e : Option PublishError)
      (n : ℕ)
      → log' ≡ log
      → (e ≢ none) ⊎ (0 ≡ length ms)
      → Sent ms res log ((record res { requests = n }, e), (s, log'))
  Sent-none ms res log log' s e n same c = record {
    count = 0;
    within = omega arith;
    done_with = same ∙ sym (append-nil log);
    acked = unfold bump_all in refl;
    dims_kept = refl;
    counted = omega arith;
    complete = c;
  }

  pub send_chunks-Sent :
      (fuel : ℕ) (ms : List Metric) (res : Outcome) (s : S) (log : List Metric)
      → length ms ≤ fuel
      → Sent ms res log (send_chunks (recording api) entity_id fuel ms res (s, log))
  unfolding send_chunks
  send_chunks-Sent zero [] res s log h =
      Sent-none [] res log log s none res.requests refl (inr refl)
  send_chunks-Sent zero (m ∷ ms) res s log h = absurd (omega arith)
  send_chunks-Sent (suc fuel) [] res s log h =
      Sent-none [] res log log s none res.requests refl (inr refl)
  send_chunks-Sent (suc fuel) (m ∷ ms) res s log h =
      let chunk = take chunk_size (m ∷ ms) in
      let answer = api.ingest_metrics entity_id chunk s in
      let noted =
        λ (r : Result ApiError (Unit {0})) (h : answer.0 ≡ r). ap (λ x. note x chunk log) h in
      let go = λ (mid : Outcome) (log' : List Metric).
        send_chunks-Sent fuel (drop chunk_size (m ∷ ms)) mid answer.1 log'
          (omega (arith, length-drop chunk_size (m ∷ ms))) in
      elim (Result-cases answer.0) [
        | inl (not_found, e) ↦
            rw (e, send_chunks)
              (Sent-none (m ∷ ms) res log _ answer.1 _ _ (noted _ e) (inl (λ x. cc)))
        | inl (other_error x, e) ↦
            rw (e, send_chunks)
              (Sent-none (m ∷ ms) res log _ answer.1 _ _ (noted _ e) (inl (λ x. cc)))
        | inl (rejected f, e) ↦
            rw (e, send_chunks)
              (Sent-chunk (m ∷ ms) res _ log _ _ (noted _ e) refl refl (omega arith) (go _ _))
        | inr (u, e) ↦
            rw (e, send_chunks)
              (Sent-chunk (m ∷ ms) res _ log _ _ (noted _ e) refl refl (omega arith) (go _ _))
      ]

  -- Recording changes no answer.
  pub send_chunks-recording :
      (fuel : ℕ) (ms : List Metric) (res : Outcome) (s : S) (log : List Metric)
      → (send_chunks (recording api) entity_id fuel ms res (s, log)).0
        ≡ (send_chunks api entity_id fuel ms res s).0
  unfolding send_chunks
  send_chunks-recording zero ms res s log = refl
  send_chunks-recording (suc fuel) [] res s log = refl
  send_chunks-recording (suc fuel) (m ∷ ms) res s log =
      let answer = api.ingest_metrics entity_id (take chunk_size (m ∷ ms)) s in
      elim (Result-cases answer.0) [
        | inl (not_found, e) ↦ rw (e, send_chunks) refl
        | inl (other_error x, e) ↦ rw (e, send_chunks) refl
        | inl (rejected f, e) ↦
            rw (e, send_chunks) (send_chunks-recording fuel (drop chunk_size (m ∷ ms)) _ answer.1 _)
        | inr (u, e) ↦
            rw (e, send_chunks) (send_chunks-recording fuel (drop chunk_size (m ∷ ms)) _ answer.1 _)
      ]
