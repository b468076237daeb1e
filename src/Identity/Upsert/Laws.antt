-- ===== src/Identity/Upsert/Laws.antt =====
-- What upsert of internal/identity/resolve.go returns, and how often it asks the platform.
use omnistat.Prelude.{ℕ, zero, suc, ◌+◌, ◌≤◌, Bool, true, Bytes, ◌≡◌, arith, Bool-cases, inl, inr}
use omnistat.Settle.{Result, ok, err, Result-cases}
use omnistat.Identity.Api.{Api, ApiError, key_taken, other_error, Attrs}
use omnistat.Identity.Upsert.{upsert_attempts, settle_conflict, attempts, upsert}

-- The platform's side of the contract: an id that a call reports for a key is the id of the record
-- that holds the key when the call returns.
pub record Keeps {S : Type 0} (api : Api S) (Holds : Bytes → Bytes → Bytes → S → Type 0)
    : Type 0 where
  pub by_lookup :
      (tpl key : Bytes) (s : S) (id : Bytes)
      → (api.entity_by_key tpl key s).0 ≡ ok (id, true)
      → Holds tpl key id (api.entity_by_key tpl key s).1
  pub by_upsert :
      (tpl key : Bytes) (attrs : Attrs) (s : S) (id : Bytes) (fresh : Bool)
      → (api.upsert_by_key tpl key attrs s).0 ≡ ok (id, fresh)
      → Holds tpl key id (api.upsert_by_key tpl key attrs s).1

module _ {S : Type 0} (api : Api S) (Holds : Bytes → Bytes → Bytes → S → Type 0)
    (law : Keeps api Holds) (tpl key : Bytes) (attrs : Attrs) where
  abbrev pub Held : Result ApiError (Bytes × Bool) × S → Type 0
  Held (r, s) = elim r [ ok a ↦ Holds tpl key a.0 s | err e ↦ Unit ]

  settle_conflict-Held : (e : ApiError) (s : S) → Held (settle_conflict api tpl key attrs e s)
  settle_conflict-Held e s =
      let answer = api.entity_by_key tpl key s in
      elim (Result-cases answer.0) [
        | inl (e', h) ↦ unfold settle_conflict in rw (h, settle_conflict) tt
        | inr ((id, present), h) ↦ elim (Bool-cases present) [
          | inl p ↦
              unfold settle_conflict in
              rw (h, settle_conflict) (rw p (law.by_lookup tpl key s id (rw p at h)))
          | inr p ↦ unfold settle_conflict in rw (h, settle_conflict) (rw p tt)
        ]
      ]

  attempts-Held : (n : ℕ) (e : ApiError) (s : S) → Held (attempts api tpl key attrs n e s)
  unfolding attempts
  attempts-Held zero e s = settle_conflict-Held e s
  attempts-Held (suc n) e s =
      let answer = api.upsert_by_key tpl key attrs s in
      elim (Result-cases answer.0) [
        | inl (key_taken, h) ↦ rw (h, attempts) (attempts-Held n key_taken answer.1)
        | inl (other_error m, h) ↦ rw (h, attempts) tt
        | inr ((id, fresh), h) ↦ rw (h, attempts) (law.by_upsert tpl key attrs s id fresh h)
      ]

  -- Under the platform's laws the id that an upsert returns is that of the record that holds the
  -- key.
  pub upsert-Held : (s : S) → Held (upsert api tpl key attrs s)
  unfolding upsert
  upsert-Held s = attempts-Held upsert_attempts key_taken s

-- The same platform, with a count of the upserts and one of the lookups.
module _ {S : Type 0} (api : Api S) where
  abbrev pub counted : Api (S × ℕ × ℕ)
  counted = record {
    find_entities = λ a b c (s, u, l). let (r, s') = api.find_entities a b c s in (r, (s', u, l));
    entity_by_key = λ a b (s, u, l). let (r, s') = api.entity_by_key a b s in (r, (s', u, suc l));
    upsert_by_key =
        λ a b c (s, u, l). let (r, s') = api.upsert_by_key a b c s in (r, (s', suc u, l));
    set_entity_key = λ a b (s, u, l). let (r, s') = api.set_entity_key a b s in (r, (s', u, l));
  }

  module _ (tpl key : Bytes) (attrs : Attrs) where
    abbrev after : ℕ → ApiError → S → ℕ → ℕ → S × ℕ × ℕ
    after n e s u l = (attempts counted tpl key attrs n e (s, u, l)).1

    attempts_calls :
        (n : ℕ) (e : ApiError) (s : S) (u l : ℕ)
        → ((after n e s u l).1 ≤ u + n) × ((after n e s u l).2 ≤ l + 1)
    unfolding attempts
    attempts_calls zero e s u l = (ground arith, ground arith)
    attempts_calls (suc n) e s u l =
        let ih = attempts_calls n key_taken (api.upsert_by_key tpl key attrs s).1 (suc u) l in
        (ground (arith, ih.0), ground (arith, ih.1))

    -- An upsert writes at most three times and looks up at most once.
    upsert_calls :
        (s : S)
        → ((upsert counted tpl key attrs (s, 0, 0)).1.1 ≤ 3)
          × ((upsert counted tpl key attrs (s, 0, 0)).1.2 ≤ 1)
    unfolding upsert
    upsert_calls s = omega (arith, attempts_calls upsert_attempts key_taken s 0 0)
