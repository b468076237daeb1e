-- ===== src/Identity/Host.antt =====
-- internal/identity/resolve.go, ResolveHost: the host entity by its key, by adoption, or created.
pub mod DryRun
pub mod Owner
pub mod Additive
use omnistat.Prelude.{
  ℕ, Bool, true, false, Bytes, bytes_eq, bytes_Eq, insert, List, [], ◌∷◌, Option, none, some, ltb,
  ◌||◌, sort, map, if◌then◌else◌,
}
use omnistat.Settle.{Result, ok, err}
use omnistat.Identity.Keys.{KeyError, valid_key}
use omnistat.Identity.Api.{
  Api, ApiError, key_taken, other_error, EntitySummary, Attrs, Outcome, found, adopted,
  adopted_other_key, created, would_adopt, would_create,
}
use omnistat.Identity.Upsert.{upsert}

pub record Target : Type 0 where
  pub template_slug : Bytes
  pub template_id : Bytes
  pub attribute_slug : Bytes

pub record Host : Type 0 where
  pub entity_id : Bytes
  pub identity : Bytes
  pub outcome : Outcome
  pub was_created : Bool
  pub to_create : Bool
  pub duplicates : List Bytes
  pub other_key : Bytes

pub data HostError : Type 0 where
  invalid_key : KeyError → HostError
  not_resolved : HostError
  lookup_failed search_failed create_failed : ApiError → HostError
  adopt_failed : Bytes → ApiError → HostError

abbrev host_at : Bytes → Bytes → Outcome → Host
host_at key id outcome = record {
  entity_id = id;
  identity = key;
  outcome = outcome;
  was_created = false;
  to_create = false;
  duplicates = [];
  other_key = [];
}

is_empty : Bytes → Bool
is_empty [] = true
is_empty (b ∷ bs) = false

duplicates_of : List EntitySummary → List Bytes
duplicates_of (a ∷ b ∷ es) = map (λ e. e.id) (a ∷ b ∷ es)
duplicates_of _ = []

abbrev older : EntitySummary → EntitySummary → Bool
older a b = ltb a.created_at b.created_at

module _ {S : Type 0} (api : Api S) (t : Target) (key : Bytes) (dry_run : Bool) where
  -- Another record took the key while this one was being adopted.
  taken_meanwhile : Bytes → S → Result HostError Host × S
  taken_meanwhile pick s =
      let (r, s') = api.entity_by_key t.template_slug key s in
      elim r [
        | err e ↦ (err (lookup_failed e), s')
        | ok (id, present) ↦ elim present [
          | true ↦ (ok (host_at key id found), s')
          | false ↦ (err (adopt_failed pick key_taken), s')
        ]
      ]

  -- The record that is adopted gets its key.
  give_key : Host → S → Result HostError Host × S
  give_key h s =
      let (r, s') = api.set_entity_key h.entity_id key s in
      elim r [
        | ok _ ↦ (ok (record h { outcome = adopted }), s')
        | err e ↦ elim e [
          | key_taken ↦ taken_meanwhile h.entity_id s'
          | other_error m ↦ (err (adopt_failed h.entity_id (other_error m)), s')
        ]
      ]

  -- `legacy` is sorted, oldest first, and `pick` its first element.
  adopt : EntitySummary → List EntitySummary → S → Result HostError Host × S
  adopt pick legacy s =
      let h = record (host_at key pick.id found) { duplicates = duplicates_of legacy } in
      if bytes_eq pick.key key
      then (ok h, s)
      else if is_empty pick.key
      then (elim dry_run [
        | true ↦ (ok (record h { outcome = would_adopt }), s)
        | false ↦ give_key h s
      ])
      else (ok (record h { outcome = adopted_other_key; other_key = pick.key }), s)

  create_host : S → Result HostError Host × S
  create_host s =
      let (r, s') = upsert api t.template_slug key (insert t.attribute_slug key []) s in
      elim r [
        | err e ↦ (err (create_failed e), s')
        | ok (id, fresh) ↦ (
          ok (record (host_at key id (if fresh then created else found)) { was_created = fresh }),
          s',
        )
      ]

  choose : List EntitySummary → S → Result HostError Host × S
  choose [] s = elim dry_run [
    | true ↦ (ok (record (host_at key [] would_create) { to_create = true }), s)
    | false ↦ create_host s
  ]
  choose (pick ∷ legacy) s = adopt pick (pick ∷ legacy) s

  search_legacy : S → Result HostError Host × S
  search_legacy s =
      let (r, s') = api.find_entities t.template_id t.attribute_slug key s in
      elim r [ err e ↦ (err (search_failed e), s') | ok legacy ↦ choose (sort older legacy) s' ]

  look_up : S → Result HostError Host × S
  look_up s =
      let (r, s') = api.entity_by_key t.template_slug key s in
      elim r [
        | err e ↦ (err (lookup_failed e), s')
        | ok (id, present) ↦ elim present [
          | true ↦ (ok (host_at key id found), s')
          | false ↦ search_legacy s'
        ]
      ]

  unfoldable pub resolve_host : S → Result HostError Host × S
  unfolding look_up search_legacy choose adopt give_key taken_meanwhile create_host is_empty
      duplicates_of
  resolve_host s = elim (valid_key key) [
    | some e ↦ (err (invalid_key e), s)
    | none ↦
        if is_empty t.template_id || (is_empty t.template_slug || is_empty t.attribute_slug)
        then (err not_resolved, s)
        else look_up s
  ]
