-- ===== src/Identity/Host/Additive.antt =====
-- internal/identity/resolve.go, ResolveHost: what it writes.
use omnistat.Prelude.{
  ℕ, zero, suc, Bool, true, false, Bytes, bytes_eq, bytes_Eq, insert, List, [], ◌∷◌, ◌||◌, ◌≡◌,
  refl, sort, All, All-sort, Bool-cases, Option-cases, inl, inr,
}
use omnistat.Settle.{ok, Result-cases}
use omnistat.Identity.Keys.{valid_key}
use omnistat.Identity.Api.{Api, ApiError, key_taken, other_error, EntitySummary, Attrs}
use omnistat.Identity.Upsert.{upsert, attempts, settle_conflict, upsert_attempts}
use omnistat.Identity.Host.{
  Host, Target, resolve_host, look_up, search_legacy, choose, adopt, give_key, taken_meanwhile,
  create_host, older, is_empty,
}

-- A property of the platform that reads, upserts and the keying of a record without a key keep.
pub record Kept {S : Type 0} (api : Api S) (P : S → Type 0) (Free : Bytes → S → Type 0) (t : Target)
    (key : Bytes) : Type 0 where
  pub by_lookup : (a b : Bytes) (s : S) → P s → P (api.entity_by_key a b s).1
  pub by_upsert : (a b : Bytes) (attrs : Attrs) (s : S) → P s → P (api.upsert_by_key a b attrs s).1
  pub by_set : (id : Bytes) (s : S) → Free id s → P s → P (api.set_entity_key id key s).1
  pub by_search : (s : S) → P s → P (api.find_entities t.template_id t.attribute_slug key s).1
  pub free_found :
      (s : S) (es : List EntitySummary)
      → (api.find_entities t.template_id t.attribute_slug key s).0 ≡ ok es
      → All
          (λ e. e.key ≡ [] → Free e.id (api.find_entities t.template_id t.attribute_slug key s).1)
          es

module _ {S : Type 0} (api : Api S) (P : S → Type 0) (Free : Bytes → S → Type 0) (t : Target)
    (key : Bytes) (law : Kept api P Free t key) where
  attempts-kept :
      (attrs : Attrs) (n : ℕ) (e : ApiError) (s : S)
      → P s
      → P (attempts api t.template_slug key attrs n e s).1
  unfolding attempts settle_conflict
  attempts-kept attrs zero e s p =
      let answer = api.entity_by_key t.template_slug key s in
      let p' = law.by_lookup t.template_slug key s p in
      elim (Result-cases answer.0) [
        | inl (e', h) ↦ rw (h, settle_conflict) p'
        | inr ((id, present), h) ↦ elim (Bool-cases present) [
          | inl q ↦ rw (h, settle_conflict) (rw q p')
          | inr q ↦ rw (h, settle_conflict) (rw q p')
        ]
      ]
  attempts-kept attrs (suc n) e s p =
      let answer = api.upsert_by_key t.template_slug key attrs s in
      let p' = law.by_upsert t.template_slug key attrs s p in
      elim (Result-cases answer.0) [
        | inl (key_taken, h) ↦ rw (h, attempts) (attempts-kept attrs n key_taken answer.1 p')
        | inl (other_error m, h) ↦ rw (h, attempts) p'
        | inr (a, h) ↦ rw (h, attempts) p'
      ]

  create_host-kept : (d : Bool) (s : S) → P s → P (create_host api t key d s).1
  unfolding create_host upsert
  create_host-kept d s p =
      let attrs = insert t.attribute_slug key [] in
      let p' = attempts-kept attrs upsert_attempts key_taken s p in
      elim (Result-cases (upsert api t.template_slug key attrs s).0) [
        | inl (e, h) ↦ rw (h, create_host) p'
        | inr (a, h) ↦ rw (h, create_host) p'
      ]

  taken_meanwhile-kept :
      (d : Bool) (pick : Bytes) (s : S) → P s → P (taken_meanwhile api t key d pick s).1
  unfolding taken_meanwhile
  taken_meanwhile-kept d pick s p =
      let p' = law.by_lookup t.template_slug key s p in
      elim (Result-cases (api.entity_by_key t.template_slug key s).0) [
        | inl (e, h) ↦ rw (h, taken_meanwhile) p'
        | inr ((id, present), h) ↦ elim (Bool-cases present) [
          | inl q ↦ rw (h, taken_meanwhile) (rw q p')
          | inr q ↦ rw (h, taken_meanwhile) (rw q p')
        ]
      ]

  give_key-kept :
      (d : Bool) (h : Host) (s : S) → Free h.entity_id s → P s → P (give_key api t key d h s).1
  unfolding give_key
  give_key-kept d h s free p =
      let answer = api.set_entity_key h.entity_id key s in
      let p' = law.by_set h.entity_id s free p in
      elim (Result-cases answer.0) [
        | inl (key_taken, e) ↦ rw (e, give_key) (taken_meanwhile-kept d h.entity_id answer.1 p')
        | inl (other_error m, e) ↦ rw (e, give_key) p'
        | inr (u, e) ↦ rw (e, give_key) p'
      ]

  is_empty→nil : (s : Bytes) → is_empty s ≡ true → s ≡ []
  unfolding is_empty
  is_empty→nil [] h = refl
  is_empty→nil (b ∷ bs) h = cc

  adopt-kept :
      (d : Bool) (pick : EntitySummary) (legacy : List EntitySummary) (s : S)
      → (pick.key ≡ [] → Free pick.id s)
      → P s
      → P (adopt api t key d pick legacy s).1
  unfolding adopt
  adopt-kept d pick legacy s free p = elim (Bool-cases (bytes_eq pick.key key)) [
    | inl same ↦ rw same p
    | inr other ↦ elim (Bool-cases (is_empty pick.key)) [
      | inl none_set ↦
          rw (other, none_set)
            (elim (Bool-cases d) [
              | inl q ↦ rw (q, adopt) p
              | inr q ↦
                  rw (q, adopt) (give_key-kept _ _ s (free (is_empty→nil pick.key none_set)) p)
            ])
      | inr held ↦ rw (other, held) p
    ]
  ]

  choose-kept :
      (d : Bool) (legacy : List EntitySummary) (s : S)
      → All (λ e. e.key ≡ [] → Free e.id s) legacy
      → P s
      → P (choose api t key d legacy s).1
  unfolding choose
  choose-kept true [] s h p = p
  choose-kept false [] s h p = create_host-kept false s p
  choose-kept d (pick ∷ legacy) s h p = adopt-kept d pick (pick ∷ legacy) s h.0 p

  search_legacy-kept : (d : Bool) (s : S) → P s → P (search_legacy api t key d s).1
  unfolding search_legacy
  search_legacy-kept d s p =
      let answer = api.find_entities t.template_id t.attribute_slug key s in
      let p' = law.by_search s p in
      elim (Result-cases answer.0) [
        | inl (e, h) ↦ rw (h, search_legacy) p'
        | inr (es, h) ↦
            rw (h, search_legacy)
              (choose-kept d (sort older es) answer.1 (All-sort older _ es (law.free_found s es h))
                p')
      ]

  look_up-kept : (d : Bool) (s : S) → P s → P (look_up api t key d s).1
  unfolding look_up
  look_up-kept d s p =
      let answer = api.entity_by_key t.template_slug key s in
      let p' = law.by_lookup t.template_slug key s p in
      elim (Result-cases answer.0) [
        | inl (e, h) ↦ rw (h, look_up) p'
        | inr ((id, present), h) ↦ elim (Bool-cases present) [
          | inl q ↦ rw (h, look_up) (rw q p')
          | inr q ↦ rw (h, look_up) (rw q (search_legacy-kept d answer.1 p'))
        ]
      ]

  -- An invariant of the platform's state that reads, upserts and keying a record that has no key
  -- preserve is preserved by ResolveHost.
  pub resolve_host_additive : (d : Bool) (s : S) → P s → P (resolve_host api t key d s).1
  unfolding resolve_host
  resolve_host_additive d s p = elim (Option-cases (valid_key key)) [
    | inl valid ↦
        rw (valid, resolve_host)
          (elim (Bool-cases
            (is_empty t.template_id || (is_empty t.template_slug || is_empty t.attribute_slug))) [
              | inl missing ↦ rw missing p
              | inr there ↦ rw there (look_up-kept d s p)
            ])
    | inr (e, bad) ↦ rw (bad, resolve_host) p
  ]
