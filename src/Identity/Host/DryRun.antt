-- ===== src/Identity/Host/DryRun.antt =====
-- internal/identity/resolve.go, ResolveHost: a dry run.
use omnistat.Prelude.{true, Bytes, List, [], ◌∷◌, ◌≡◌, refl, ◌∙◌, arith, sort, Bool-cases, inl, inr}
use omnistat.Settle.{Result-cases}
use omnistat.Identity.Api.{Api, EntitySummary}
use omnistat.Identity.Host.{Target, resolve_host, look_up, search_legacy, choose, adopt, older}

module _ {S : Type 0} (api : Api S) (t : Target) (key : Bytes)
    (lookups_read : (a b : Bytes) (s : S) → (api.entity_by_key a b s).1 ≡ s)
    (searches_read : (a b c : Bytes) (s : S) → (api.find_entities a b c s).1 ≡ s) where
  choose-dry : (es : List EntitySummary) (s : S) → (choose api t key true es s).1 ≡ s
  unfolding choose adopt
  choose-dry [] s = refl
  choose-dry (pick ∷ es) s = ground arith

  search-dry : (s : S) → (search_legacy api t key true s).1 ≡ s
  unfolding search_legacy
  search-dry s =
      let found = api.find_entities t.template_id t.attribute_slug key s in
      let same = searches_read t.template_id t.attribute_slug key s in
      elim (Result-cases found.0) [
        | inl (e, h) ↦ rw (h, search_legacy) same
        | inr (es, h) ↦ rw (h, search_legacy) (choose-dry (sort older es) found.1 ∙ same)
      ]

  look_up-dry : (s : S) → (look_up api t key true s).1 ≡ s
  unfolding look_up
  look_up-dry s =
      let answer = api.entity_by_key t.template_slug key s in
      let same = lookups_read t.template_slug key s in
      elim (Result-cases answer.0) [
        | inl (e, h) ↦ rw (h, look_up) same
        | inr ((id, present), h) ↦
            rw (h, look_up)
              (elim (Bool-cases present) [
                | inl p ↦ rw (p, look_up) same
                | inr p ↦ rw (p, look_up) (search-dry answer.1 ∙ same)
              ])
      ]

  -- If reads change nothing, a dry run of ResolveHost changes nothing.
  pub resolve_host_dry : (s : S) → (resolve_host api t key true s).1 ≡ s
  unfolding resolve_host
  resolve_host_dry s = ground (arith, look_up-dry s)
