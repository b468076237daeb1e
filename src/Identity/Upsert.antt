-- ===== src/Identity/Upsert.antt =====
-- internal/identity/resolve.go, upsert: a conflict is retried boundedly and then settled by a
-- lookup.
pub mod Laws
use omnistat.Prelude.{ℕ, zero, suc, Bool, true, false, Bytes}
use omnistat.Settle.{Result, ok, err}
use omnistat.Identity.Api.{Api, ApiError, key_taken, other_error, Attrs}

abbrev pub upsert_attempts : ℕ
upsert_attempts = 3

module _ {S : Type 0} (api : Api S) (template key : Bytes) (attrs : Attrs) where
  -- The lookup after the attempts; `last` is the error of the last one.
  unfoldable pub settle_conflict : ApiError → S → Result ApiError (Bytes × Bool) × S
  settle_conflict last s =
      let (r, s') = api.entity_by_key template key s in
      elim r [
        | err e ↦ (err e, s')
        | ok (id, found) ↦ elim found [ true ↦ (ok (id, false), s') | false ↦ (err last, s') ]
      ]

  unfoldable pub attempts : ℕ → ApiError → S → Result ApiError (Bytes × Bool) × S
  unfolding settle_conflict
  attempts zero last s = settle_conflict last s
  attempts (suc n) last s =
      let (r, s') = api.upsert_by_key template key attrs s in
      elim r [
        | ok answer ↦ (ok answer, s')
        | err e ↦ elim e [
          | key_taken ↦ attempts n key_taken s'
          | other_error m ↦ (err (other_error m), s')
        ]
      ]

  unfoldable pub upsert : S → Result ApiError (Bytes × Bool) × S
  unfolding attempts
  upsert s = attempts upsert_attempts key_taken s
