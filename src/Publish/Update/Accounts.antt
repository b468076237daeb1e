-- ===== src/Publish/Update/Accounts.antt =====
-- internal/publish/publish.go, updateDims: what a dimension update asks for and acknowledges.
use omnistat.Prelude.{
  ℕ, zero, suc, ◌+◌, ◌≤◌, Bytes, codes, bytes_eq_iff, bytes_lt, bytes_Eq, Map, lookup,
  lookup-remove, remove, All, All-append, All-sort, List, [], ◌∷◌, ◌++◌, Option, none, some, ◌≡◌,
  ◌≢◌, refl, subst, arith, length, length-sort, length-append, Option-cases, List-cases, inl, inr,
}
use omnistat.Settle.{Result-cases}
use omnistat.Publish.Types.{Api, not_found, rejected, other_error, Backfill}
use omnistat.Publish.Update.{
  DimResult, cut_prefix, keys, is_some, sent_slug, named_slugs, rejected_slugs, remove_all,
  drop_rejected, update_attempts, update_dims,
}

-- All slugs of a list are keys of the map.
abbrev pub Within : Map Bytes Backfill → List Bytes → Type 0
Within dims slugs = All (λ k. lookup k dims ≢ none) slugs

within_lem :
    (small big : Map Bytes Backfill) (slugs : List Bytes)
    → ((k : Bytes) → lookup k small ≢ none → lookup k big ≢ none)
    → Within small slugs
    → Within big slugs
within_lem small big [] h w = tt
within_lem small big (k ∷ ks) h w = (h k w.0, within_lem small big ks h w.1)

keys-Within : (dims : Map Bytes Backfill) → Within dims (keys dims)
unfolding keys lookup
keys-Within [] = tt
keys-Within ((k, v) ∷ m) = (
  ground (arith, bytes_eq_iff k k),
  within_lem m ((k, v) ∷ m) (keys m) (λ j h. ground (arith, h)) (keys-Within m),
)

sent_slug-Within :
    (o : Option Bytes) (dims : Map Bytes Backfill) (rest : List Bytes)
    → Within dims rest
    → Within dims (sent_slug o dims rest)
unfolding sent_slug is_some
sent_slug-Within none dims rest w = w
sent_slug-Within (some slug) dims rest w = elim (Option-cases (lookup slug dims)) [
  | inl e ↦ rw (e, sent_slug, is_some) w
  | inr (b, e) ↦ rw (e, sent_slug, is_some) ((λ n. ground (arith, e, n)), w)
]

named_slugs-Within :
    (fields : List Bytes) (dims : Map Bytes Backfill) → Within dims (named_slugs fields dims)
unfolding named_slugs
named_slugs-Within [] dims = tt
named_slugs-Within (f ∷ fs) dims =
    sent_slug-Within (cut_prefix (codes "attributes.") f) dims (named_slugs fs dims)
      (named_slugs-Within fs dims)

rejected-Within :
    (fields : Map Bytes (List Bytes)) (dims : Map Bytes Backfill)
    → Within dims (rejected_slugs fields dims)
unfolding rejected_slugs
rejected-Within fields dims =
    All-sort bytes_lt (λ k. lookup k dims ≢ none) (named_slugs (keys fields) dims)
      (named_slugs-Within (keys fields) dims)

lookup-remove_all :
    (slugs : List Bytes) (dims : Map Bytes Backfill) (k : Bytes)
    → lookup k (remove_all slugs dims) ≢ none
    → lookup k dims ≢ none
unfolding remove_all
lookup-remove_all [] dims k h = h
lookup-remove_all (s ∷ ss) dims k h =
    let h' = lookup-remove_all ss (remove s dims) k h in
    λ n. h' (ground (arith, n, lookup-remove s k dims))

-- The same platform, with a count of the updates that are asked of it.
abbrev pub counting : {S : Type 0} → Api S → Api (S × ℕ)
counting api = record {
  update_entity = λ id dims (s, n). let (r, s') = api.update_entity id dims s in (r, (s', suc n));
  ingest_metrics = λ id ms (s, n). let (r, s') = api.ingest_metrics id ms s in (r, (s', n));
  print = λ to dims metrics (s, n). (api.print to dims metrics s, n);
}

-- What an update may have acknowledged and counted when `calls` requests were made of the `allowed`
-- ones.
pub record Accounted (dims : Map Bytes Backfill) (allowed calls : ℕ) (r : DimResult) : Type 0 where
  pub sent : Within dims r.acked
  pub counted : r.requests ≡ calls
  pub bounded : calls ≤ allowed
  pub dropped_acked : r.dropped ≤ length r.acked

module _ {S : Type 0} (api : Api S) (entity_id : Bytes) (dims : Map Bytes Backfill) where
  -- One more request, whose answer adds nothing.
  asked :
      (m n c : ℕ) (r : DimResult)
      → Accounted dims m c r
      → Accounted dims (m + suc n) (suc c) (record r { requests = r.requests + 1 })
  asked m n c r a = record {
    sent = a.sent;
    counted = omega (arith, a.counted);
    bounded = omega (arith, a.bounded);
    dropped_acked = a.dropped_acked;
  }

  allowed_more : (m n c : ℕ) (r : DimResult) → Accounted dims m c r → Accounted dims (m + n) c r
  allowed_more m n c r a = record {
    sent = a.sent;
    counted = a.counted;
    bounded = omega (arith, a.bounded);
    dropped_acked = a.dropped_acked;
  }

  attempts-Accounted :
      (n m c : ℕ) (left : Map Bytes Backfill) (r : DimResult) (s : S)
      → ((k : Bytes) → lookup k left ≢ none → lookup k dims ≢ none)
      → Accounted dims m c r
      → let out = update_attempts (counting api) entity_id n left r (s, c) in
        Accounted dims (m + n) out.1.1 out.0.0
  unfolding update_attempts drop_rejected
  attempts-Accounted zero m c left r s sub a = allowed_more m 0 c r a
  attempts-Accounted (suc n) m c [] r s sub a = allowed_more m (suc n) c r a
  attempts-Accounted (suc n) m c (d ∷ rest) r s sub a =
      let left = d ∷ rest in
      let x = api.update_entity entity_id left s in
      elim (Result-cases x.0) [
        | inr (u, h) ↦
            rw (h, update_attempts)
              (record {
                sent =
                    All-sort bytes_lt (λ k. lookup k dims ≢ none) (r.acked ++ keys left)
                      (All-append (λ k. lookup k dims ≢ none) r.acked (keys left) a.sent
                        (within_lem left dims (keys left) sub (keys-Within left)));
                counted = omega (arith, a.counted);
                bounded = omega (arith, a.bounded);
                dropped_acked = omega (
                  arith,
                  a.dropped_acked,
                  length-sort bytes_lt (r.acked ++ keys left),
                  length-append r.acked (keys left),
                );
              })
        | inl (not_found, h) ↦ rw (h, update_attempts) (asked m n c r a)
        | inl (other_error e, h) ↦ rw (h, update_attempts) (asked m n c r a)
        | inl (rejected none, h) ↦ rw (h, update_attempts) (asked m n c r a)
        | inl (rejected (some fields), h) ↦
            let bad = rejected_slugs fields left in
            elim (List-cases bad) [
              | inl e ↦ rw (h, update_attempts, e, drop_rejected) (asked m n c r a)
              | inr (slug, slugs, e) ↦
                  let named : Within left (slug ∷ slugs) =
                    subst (Within left) e (rejected-Within fields left) in
                  let next : DimResult = record r {
                    requests = r.requests + 1;
                    acked = r.acked ++ slug ∷ slugs;
                    dropped = r.dropped + length (slug ∷ slugs);
                  } in
                  let a' : Accounted dims (m + 1) (suc c) next = record {
                    sent =
                        All-append (λ k. lookup k dims ≢ none) r.acked (slug ∷ slugs) a.sent
                          (within_lem left dims (slug ∷ slugs) sub named);
                    counted = omega (arith, a.counted);
                    bounded = omega (arith, a.bounded);
                    dropped_acked =
                        omega (arith, a.dropped_acked, length-append r.acked (slug ∷ slugs));
                  } in
                  let total : m + 1 + n ≡ m + suc n = omega arith in
                  rw (h, update_attempts, e, drop_rejected)
                    (subst
                      (λ t.
                        let out =
                          update_attempts (counting api) entity_id n
                            (remove_all (slug ∷ slugs) left) next (x.1, suc c) in
                        Accounted dims t out.1.1 out.0.0)
                      total
                      (attempts-Accounted n (m + 1) (suc c) (remove_all (slug ∷ slugs) left) next
                        x.1 (λ k g. sub k (lookup-remove_all (slug ∷ slugs) left k g)) a'))
            ]
      ]

  -- A dimension update calls the platform at most twice, which is the number of requests that it
  -- returns, acknowledges only slugs that it was given, and acknowledges at least as many as it
  -- counts as dropped.
  pub update_dims-Accounted :
      (s : S)
      → let out = update_dims (counting api) entity_id dims (s, 0) in
        Accounted dims 2 out.1.1 out.0.0
  unfolding update_dims
  update_dims-Accounted s =
      attempts-Accounted 2 0 0 dims (record { acked = []; dropped = 0; requests = 0 }) s (λ k h. h)
        (record { sent = tt; counted = refl; bounded = omega arith; dropped_acked = omega arith })
