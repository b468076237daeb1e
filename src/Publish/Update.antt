-- ===== src/Publish/Update.antt =====
-- internal/publish/publish.go, updateDims and rejectedSlugs: the dimension update, retried once
-- without the attributes that a refusal names.
pub mod Accounts
use omnistat.Prelude.{
  ℕ, zero, suc, ◌+◌, Bool, true, false, Bytes, codes, bytes_lt, bytes_Eq, Map, lookup, remove, sort,
  List, [], ◌∷◌, ◌++◌, Option, none, some, if◌then◌else◌, ◌==◌, length,
}
use omnistat.Settle.{ok, err}
use omnistat.Publish.Types.{
  Api, not_found, rejected, other_error, Backfill, PublishError, entity_gone, update_failed,
}

pub record DimResult : Type 0 where
  pub acked : List Bytes
  pub dropped : ℕ
  pub requests : ℕ

-- strings.CutPrefix
unfoldable pub cut_prefix : Bytes → Bytes → Option Bytes
cut_prefix [] s = some s
cut_prefix (a ∷ p) [] = none
cut_prefix (a ∷ p) (b ∷ s) = let rest = cut_prefix p s in if a == b then rest else none

unfoldable pub keys {ℓ} : {V : Type ℓ} → Map Bytes V → List Bytes
keys [] = []
keys ((k, v) ∷ m) = k ∷ keys m

abbrev pub cons_if : Bool → Bytes → List Bytes → List Bytes
cons_if true x xs = x ∷ xs
cons_if false x xs = xs

unfoldable pub is_some {ℓ} : {A : Type ℓ} → Option A → Bool
is_some none = false
is_some (some a) = true

-- Keep a field's slug if it was sent.
unfoldable pub sent_slug : Option Bytes → Map Bytes Backfill → List Bytes → List Bytes
unfolding is_some
sent_slug none dims rest = rest
sent_slug (some slug) dims rest = cons_if (is_some (lookup slug dims)) slug rest

unfoldable pub named_slugs : List Bytes → Map Bytes Backfill → List Bytes
unfolding sent_slug
named_slugs [] dims = []
named_slugs (field ∷ fields) dims =
    sent_slug (cut_prefix (codes "attributes.") field) dims (named_slugs fields dims)

unfoldable pub rejected_slugs : Map Bytes (List Bytes) → Map Bytes Backfill → List Bytes
unfolding named_slugs
rejected_slugs fields dims = sort bytes_lt (named_slugs (keys fields) dims)

unfoldable pub remove_all : List Bytes → Map Bytes Backfill → Map Bytes Backfill
remove_all [] dims = dims
remove_all (slug ∷ slugs) dims = remove_all slugs (remove slug dims)

module _ {S : Type 0} (api : Api S) (entity_id : Bytes) where
  -- A refusal that names nothing we sent ends the update; one that names something drops it.
  unfoldable pub drop_rejected :
      Map Bytes (List Bytes)
      → List Bytes
      → Map Bytes Backfill
      → DimResult
      → Option (Map Bytes Backfill × DimResult)
  drop_rejected fields [] dims r = none
  drop_rejected fields (slug ∷ slugs) dims r = some (
    remove_all (slug ∷ slugs) dims,
    record r { acked = r.acked ++ slug ∷ slugs; dropped = r.dropped + length (slug ∷ slugs) },
  )

  -- The attempts that are left, while there is something to send.
  unfoldable pub update_attempts :
      ℕ → Map Bytes Backfill → DimResult → S → (DimResult × Option PublishError) × S
  unfolding drop_rejected
  update_attempts zero dims r s = ((r, none), s)
  update_attempts (suc n) [] r s = ((r, none), s)
  update_attempts (suc n) (d ∷ dims) r0 s =
      let r = record r0 { requests = r0.requests + 1 } in
      let (answer, s') = api.update_entity entity_id (d ∷ dims) s in
      elim answer [
        | ok _ ↦ ((record r { acked = sort bytes_lt (r.acked ++ keys (d ∷ dims)) }, none), s')
        | err e ↦ elim e [
          | not_found ↦ ((r, some (entity_gone entity_id)), s')
          | other_error m ↦ ((r, some (update_failed (other_error m))), s')
          | rejected f ↦ elim f [
            | none ↦ ((r, some (update_failed (rejected none))), s')
            | some fields ↦
                elim (drop_rejected fields (rejected_slugs fields (d ∷ dims)) (d ∷ dims) r) [
                  | none ↦ ((r, some (update_failed (rejected (some fields)))), s')
                  | some next ↦ update_attempts n next.0 next.1 s'
                ]
          ]
        ]
      ]

  unfoldable pub update_dims : Map Bytes Backfill → S → (DimResult × Option PublishError) × S
  unfolding update_attempts
  update_dims dims s = update_attempts 2 dims (record { acked = []; dropped = 0; requests = 0 }) s
