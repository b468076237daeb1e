-- ===== src/Identity/Host/Owner.antt =====
-- ResolveHost in internal/identity/resolve.go against the platform's contract.
use omnistat.Prelude.{
  Bool, true, false, Bytes, bytes_eq, bytes_eq_iff, bytes_Eq, insert, List, [], ◌∷◌, ◌||◌, ◌≡◌,
  sort, All, All-sort, Bool-cases, Option-cases, inl, inr,
}
use omnistat.Settle.{Result, ok, err, Result-cases}
use omnistat.Identity.Keys.{valid_key}
use omnistat.Identity.Api.{
  Api, key_taken, other_error, EntitySummary, Outcome, found, adopted, created,
}
use omnistat.Identity.Upsert.{upsert}
use omnistat.Identity.Upsert.Laws.{Keeps, upsert-Held}
use omnistat.Identity.Host.{
  Host, HostError, Target, resolve_host, look_up, search_legacy, choose, adopt, give_key,
  taken_meanwhile, create_host, older, is_empty,
}

-- The outcomes after which the entity holds the key.
unfoldable pub owns : Outcome → Bool
owns found = true
owns adopted = true
owns created = true
owns _ = false

module _ {S : Type 0} (Holds : Bytes → Bytes → Bytes → S → Type 0) (t : Target) (key : Bytes) where
  -- A resolution that claims ownership returns the entity that holds the key.
  abbrev pub Owned : Result HostError Host × S → Type 0
  Owned (r, s) = elim r [
    | ok h ↦ owns h.outcome ≡ true → Holds t.template_slug key h.entity_id s
    | err e ↦ Unit
  ]

module _ {S : Type 0} (api : Api S) (Holds : Bytes → Bytes → Bytes → S → Type 0) (t : Target)
    (key : Bytes) (law : Keeps api Holds)
    (by_set : (id : Bytes) (s : S)
      → (api.set_entity_key id key s).0 ≡ ok tt
      → Holds t.template_slug key id (api.set_entity_key id key s).1)
    (by_search : (s : S) (es : List EntitySummary)
      → (api.find_entities t.template_id t.attribute_slug key s).0 ≡ ok es
      → All
          (λ e.
            e.key ≡ key
            → Holds t.template_slug key e.id
                (api.find_entities t.template_id t.attribute_slug key s).1)
          es)
    (dry_run : Bool) where
  taken_meanwhile-Owned :
      (pick : Bytes) (s : S) → Owned Holds t key (taken_meanwhile api t key dry_run pick s)
  unfolding taken_meanwhile
  taken_meanwhile-Owned pick s =
      let answer = api.entity_by_key t.template_slug key s in
      elim (Result-cases answer.0) [
        | inl (e, h) ↦ rw (h, taken_meanwhile) tt
        | inr ((id, present), h) ↦ elim (Bool-cases present) [
          | inl p ↦
              rw (h, taken_meanwhile)
                (rw p (λ o. law.by_lookup t.template_slug key s id (rw p at h)))
          | inr p ↦ rw (h, taken_meanwhile) (rw p tt)
        ]
      ]

  give_key-Owned : (h : Host) (s : S) → Owned Holds t key (give_key api t key dry_run h s)
  unfolding give_key
  give_key-Owned h s =
      let answer = api.set_entity_key h.entity_id key s in
      elim (Result-cases answer.0) [
        | inl (key_taken, e) ↦ rw (e, give_key) (taken_meanwhile-Owned h.entity_id answer.1)
        | inl (other_error m, e) ↦ rw (e, give_key) tt
        | inr (tt, e) ↦ rw (e, give_key) (λ o. by_set h.entity_id s e)
      ]

  adopt-Owned :
      (pick : EntitySummary) (legacy : List EntitySummary) (s : S)
      → (pick.key ≡ key → Holds t.template_slug key pick.id s)
      → Owned Holds t key (adopt api t key dry_run pick legacy s)
  unfolding adopt owns
  adopt-Owned pick legacy s holds = elim (Bool-cases (bytes_eq pick.key key)) [
    | inl same ↦ rw (same) (λ o. holds ((bytes_eq_iff pick.key key).0 same))
    | inr other ↦ elim (Bool-cases (is_empty pick.key)) [
      | inl free ↦
          rw (other, free)
            (elim (Bool-cases dry_run) [
              | inl d ↦ rw (d, adopt) (λ o. cc)
              | inr d ↦ rw (d, adopt) (give_key-Owned _ s)
            ])
      | inr held ↦ rw (other, held) (λ o. cc)
    ]
  ]

  create_host-Owned : (s : S) → Owned Holds t key (create_host api t key dry_run s)
  unfolding create_host
  create_host-Owned s =
      let attrs = insert t.attribute_slug key [] in
      let answer = upsert api t.template_slug key attrs s in
      let held = upsert-Held api Holds law t.template_slug key attrs s in
      elim (Result-cases answer.0) [
        | inl (e, h) ↦ rw (h, create_host) tt
        | inr ((id, fresh), h) ↦ rw (h, create_host) (λ o. rw h at held)
      ]

  choose-Owned :
      (legacy : List EntitySummary) (s : S)
      → All (λ e. e.key ≡ key → Holds t.template_slug key e.id s) legacy
      → Owned Holds t key (choose api t key dry_run legacy s)
  unfolding choose owns
  choose-Owned [] s h = elim (Bool-cases dry_run) [
    | inl d ↦ rw (d, choose) (λ o. cc)
    | inr d ↦ rw (d, choose) (create_host-Owned s)
  ]
  choose-Owned (pick ∷ legacy) s h = adopt-Owned pick (pick ∷ legacy) s h.0

  search_legacy-Owned : (s : S) → Owned Holds t key (search_legacy api t key dry_run s)
  unfolding search_legacy
  search_legacy-Owned s =
      let answer = api.find_entities t.template_id t.attribute_slug key s in
      elim (Result-cases answer.0) [
        | inl (e, h) ↦ rw (h, search_legacy) tt
        | inr (es, h) ↦
            rw (h, search_legacy)
              (choose-Owned (sort older es) answer.1 (All-sort older _ es (by_search s es h)))
      ]

  look_up-Owned : (s : S) → Owned Holds t key (look_up api t key dry_run s)
  unfolding look_up
  look_up-Owned s =
      let answer = api.entity_by_key t.template_slug key s in
      elim (Result-cases answer.0) [
        | inl (e, h) ↦ rw (h, look_up) tt
        | inr ((id, present), h) ↦ elim (Bool-cases present) [
          | inl p ↦ rw (h, look_up) (rw p (λ o. law.by_lookup t.template_slug key s id (rw p at h)))
          | inr p ↦ rw (h, look_up) (rw p (search_legacy-Owned answer.1))
        ]
      ]

  pub resolve_host-Owned : (s : S) → Owned Holds t key (resolve_host api t key dry_run s)
  unfolding resolve_host
  resolve_host-Owned s = elim (Option-cases (valid_key key)) [
    | inl valid ↦
        rw (valid, resolve_host)
          (elim (Bool-cases
            (is_empty t.template_id || (is_empty t.template_slug || is_empty t.attribute_slug))) [
              | inl missing ↦ rw missing tt
              | inr there ↦ rw there (look_up-Owned s)
            ])
    | inr (e, bad) ↦ rw (bad, resolve_host) tt
  ]

  -- Under the platform's laws, an entity that ResolveHost reports as found, adopted or created is
  -- the one that holds the host's key.
  pub resolve_host_owner :
      (s : S) (h : Host)
      → (resolve_host api t key dry_run s).0 ≡ ok h
      → owns h.outcome ≡ true
      → Holds t.template_slug key h.entity_id (resolve_host api t key dry_run s).1
  resolve_host_owner s h e = rw e at (resolve_host-Owned s)
