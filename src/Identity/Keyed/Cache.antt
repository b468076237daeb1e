-- ===== src/Identity/Keyed/Cache.antt =====
-- The memory of internal/identity/keyed.go.
use omnistat.Prelude.{
  ℕ, Bool, true, false, Bytes, bytes_eq, bytes_Eq, bytes_eq_iff, bytes_eq_refl, lookup,
  lookup-insert, lookup-remove, List, [], ◌∷◌, ◌++◌, ◌≡◌, ◌≢◌, refl, arith, Option, none, some, All,
  Bool-cases, Option-cases, inl, inr, if◌then◌else◌,
}
use omnistat.Settle.{Result, ok, err, Result-cases}
use omnistat.Identity.Api.{Api, Outcome, found, would_create}
use omnistat.Identity.Upsert.{upsert}
use omnistat.Identity.Keyed.{
  Keyed, KeyedError, cache_key, resolve, look_up, create_entity, forget, link_attrs,
}

-- Templates' slugs hold no zero byte, so the two parts of an entry's key can be told apart.
pub cache_key-injective :
    (t u k l : Bytes)
    → All (λ b. b ≢ 0) t
    → All (λ b. b ≢ 0) u
    → cache_key t k ≡ cache_key u l
    → (t ≡ u) × (k ≡ l)
unfolding cache_key
cache_key-injective [] [] k l ht hu e = ground arith
cache_key-injective [] (b ∷ u) k l ht hu e = ground arith
cache_key-injective (a ∷ t) [] k l ht hu e = ground arith
cache_key-injective (a ∷ t) (b ∷ u) k l ht hu e =
    ground (arith, cache_key-injective t u k l ht.1 hu.1)

-- What a resolution that returned an entity leaves in memory.
abbrev Cached :
    {S : Type 0} → Bytes → Bytes → Result KeyedError (Bytes × Outcome) × Keyed × S → Type 0
Cached template key (r, k, s) = elim r [
  | err e ↦ Unit
  | ok (id, o) ↦ o ≢ would_create → lookup (cache_key template key) k.ids ≡ some id
]

module _ {S : Type 0} (api : Api S) (template key : Bytes) where
  remembered_lookup :
      (k : Keyed) (id : Bytes)
      → lookup (cache_key template key) (omnistat.Prelude.insert (cache_key template key) id k.ids)
        ≡ some id
  remembered_lookup k id = ground (
    arith,
    lookup-insert (cache_key template key) (cache_key template key) id k.ids,
    bytes_eq_refl (cache_key template key),
  )

  create_entity-Cached :
      (k : Keyed) (s : S) → Cached template key (create_entity api k template key s)
  unfolding create_entity
  create_entity-Cached k s =
      elim (Result-cases (upsert api template key (link_attrs k template) s).0) [
        | inl (e, h) ↦ rw (h, create_entity) tt
        | inr ((id, fresh), h) ↦ rw (h, create_entity) (λ o. remembered_lookup k id)
      ]

  look_up-Cached : (k : Keyed) (s : S) → Cached template key (look_up api k template key s)
  unfolding look_up
  look_up-Cached k s =
      let answer = api.entity_by_key template key s in
      elim (Result-cases answer.0) [
        | inl (e, h) ↦ rw (h, look_up) tt
        | inr ((id, present), h) ↦ elim (Bool-cases present) [
          | inl q ↦ rw (h, look_up) (rw q (λ o. remembered_lookup k id))
          | inr q ↦
              rw (h, look_up)
                (rw q (elim (Bool-cases k.dry_run) [
                  | inl d ↦ rw (d, look_up) (λ o. absurd (o refl))
                  | inr d ↦ rw (d, look_up) (create_entity-Cached k answer.1)
                ]))
        ]
      ]

  resolve-Cached : (k : Keyed) (s : S) → Cached template key (resolve api k template key s)
  unfolding resolve
  resolve-Cached k s = elim (Option-cases (lookup (cache_key template key) k.ids)) [
    | inl absent ↦ rw (absent, resolve) (look_up-Cached k s)
    | inr (id, held) ↦ rw (held, resolve) (λ o. held)
  ]

  -- An entity that was resolved, and not only reported as to be created, is returned from memory
  -- afterwards without a call.
  pub resolve_again :
      (k : Keyed) (s s' : S) (id : Bytes) (o : Outcome)
      → (resolve api k template key s).0 ≡ ok (id, o)
      → o ≢ would_create
      → resolve api (resolve api k template key s).1 template key s'
        ≡ (ok (id, found), (resolve api k template key s).1, s')
  resolve_again k s s' id o e there =
      let k' = (resolve api k template key s).1 in
      let held : lookup (cache_key template key) k'.ids ≡ some id =
        (rw e at (resolve-Cached k s)) there in
      unfold resolve in rw (held, resolve) refl

  -- A forgotten entity is looked up at the platform again, and a different one stays in memory,
  -- for templates without zero bytes.
  forget_one :
      (k : Keyed) (other_template other_key : Bytes) (s : S)
      → All (λ b. b ≢ 0) template
      → All (λ b. b ≢ 0) other_template
      → ((template ≡ other_template) × (key ≡ other_key) → ⊥)
      → (resolve api (forget k template key) template key s
          ≡ look_up api (forget k template key) template key s)
        × (lookup (cache_key other_template other_key) (forget k template key).ids
            ≡ lookup (cache_key other_template other_key) k.ids)
  forget_one k u l s ht hu differ =
      let removed : lookup (cache_key template key) (forget k template key).ids ≡ none =
        unfold forget in
        ground (
          arith,
          lookup-remove (cache_key template key) (cache_key template key) k.ids,
          bytes_eq_refl (cache_key template key),
        ) in
      (
        unfold resolve in rw (removed, resolve) refl,
        elim (Bool-cases (bytes_eq (cache_key template key) (cache_key u l))) [
          | inl same ↦
              absurd
                (differ (cache_key-injective template u key l ht hu ((bytes_eq_iff _ _).0 same)))
          | inr other ↦ unfold forget in rw (lookup-remove, other) refl
        ],
      )
