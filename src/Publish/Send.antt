-- ===== src/Publish/Send.antt =====
-- internal/publish/publish.go: the metrics of a batch in chunks, each acknowledged on its own.
pub mod Accounts
use omnistat.Prelude.{
  ℕ, zero, suc, ◌+◌, Bool, true, false, Bytes, Map, List, [], ◌∷◌, Option, none, some, length, take,
  drop,
}
use omnistat.Settle.{Result, ok, err}
use omnistat.Publish.Types.{
  Api, ApiError, not_found, rejected, other_error, Metric, Outcome, PublishError, entity_gone,
  ingest_failed, bump,
}

abbrev pub chunk_size : ℕ
chunk_size = 1000

unfoldable pub bump_all : List Metric → Map Bytes ℕ → Map Bytes ℕ
bump_all [] m = m
bump_all (x ∷ xs) m = bump_all xs (bump x.slug m)

abbrev pub count_chunk : List Metric → Outcome → Outcome
count_chunk chunk res = record res {
  ack = record { dims = res.ack.dims; metrics = bump_all chunk res.ack.metrics };
}

module _ {S : Type 0} (api : Api S) (entity_id : Bytes) where
  -- `fuel` bounds the chunks left; as many as there are metrics are enough.
  unfoldable pub send_chunks : ℕ → List Metric → Outcome → S → (Outcome × Option PublishError) × S
  send_chunks zero ms res s = ((res, none), s)
  send_chunks (suc fuel) [] res s = ((res, none), s)
  send_chunks (suc fuel) (m ∷ ms) res0 s =
      let chunk = take chunk_size (m ∷ ms) in
      let rest = drop chunk_size (m ∷ ms) in
      let res = record res0 { requests = res0.requests + 1 } in
      let (answer, s') = api.ingest_metrics entity_id chunk s in
      elim answer [
        | ok _ ↦
            send_chunks fuel rest
              (count_chunk chunk (record res { observations = res.observations + length chunk })) s'
        | err e ↦ elim e [
          | not_found ↦ ((res, some (entity_gone entity_id)), s')
          | other_error x ↦ ((res, some (ingest_failed (other_error x))), s')
          | rejected f ↦
              send_chunks fuel rest
                (count_chunk chunk (record res { dropped = res.dropped + length chunk })) s'
        ]
      ]
