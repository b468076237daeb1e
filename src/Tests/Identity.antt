-- ===== src/Tests/Identity.antt =====
-- A small platform for internal/identity: the records of one template by their keys, and how often
-- something was written.
use omnistat.Prelude.{
  Bool, true, false, Bytes, codes, bytes_eq, bytes_eq_iff, bytes_lt, bytes_Eq, Map, lookup, insert,
  remove, lookup-insert, List, [], ◌∷◌, Option, none, some, ◌≡◌, refl, arith, All, Option-cases,
  inl, inr, sort, insert_sorted,
}
use omnistat.Runes.{runes, any_control, first_is_space, last_is_space}
use omnistat.Settle.{Result, ok}
use omnistat.Identity.Keys.{valid_key}
use omnistat.Identity.Api.{Api, ApiError, EntitySummary, found, created}
use omnistat.Identity.Upsert.{upsert, attempts, settle_conflict}
use omnistat.Identity.Upsert.Laws.{Keeps, upsert-Held}
use omnistat.Identity.Host.{Host, Target, resolve_host}
use omnistat.Identity.Host.DryRun.{resolve_host_dry}
use omnistat.Identity.Host.Owner.{owns, resolve_host_owner}
use omnistat.Identity.Host.Additive.{Kept, resolve_host_additive}
use omnistat.Identity.Keyed
use omnistat.Identity.Keyed.{Keyed, cache_key}
use omnistat.Identity.Keyed.Cache.{cache_key-injective, resolve_again}

-- The record that holds each key.
abbrev Records : Type 0
Records = Map Bytes Bytes

by_key : Option Bytes → Bytes × Bool
by_key none = ([], false)
by_key (some id) = (id, true)

put_record : Option Bytes → Bytes → Records → Result ApiError (Bytes × Bool) × Records
put_record none key s = (ok (key, true), insert key key s)
put_record (some id) key s = (ok (id, false), s)

platform : Api Records
unfolding by_key put_record
platform = record {
  find_entities = λ tpl attr value s. (ok [], s);
  entity_by_key = λ tpl key s. (ok (by_key (lookup key s)), s);
  upsert_by_key = λ tpl key attrs s. put_record (lookup key s) key s;
  set_entity_key = λ id key s. (ok tt, insert key id s);
}

abbrev HoldsKey : Bytes → Bytes → Bytes → Records → Type 0
HoldsKey tpl key id s = lookup key s ≡ some id

platform-Keeps : Keeps platform HoldsKey
unfolding platform
platform-Keeps = record {
  by_lookup = λ tpl key s id h. elim (Option-cases (lookup key s)) [
    | inl absent ↦ ground arith
    | inr (i, held) ↦ ground arith
  ];
  by_upsert = λ tpl key attrs s id fresh h. elim (Option-cases (lookup key s)) [
    | inl absent ↦ ground (arith, lookup-insert key key key s, bytes_eq_iff key key)
    | inr (i, held) ↦ ground arith
  ];
}

nothing_found :
    (P : EntitySummary → Type 0) (es : List EntitySummary)
    → ◌≡◌ {A = Result ApiError (List EntitySummary)} (ok []) (ok es)
    → All P es
nothing_found P [] h = tt
nothing_found P (e ∷ es) h = cc

abbrev target : Target
target = record {
  template_slug = codes "host";
  template_id = codes "t1";
  attribute_slug = codes "machine_id";
}

-- all that the tests compute with
program : Unit {0}
unfolding platform by_key put_record lookup insert remove bytes_eq bytes_lt sort insert_sorted
    resolve_host valid_key runes any_control first_is_space last_is_space upsert attempts
    settle_conflict owns cache_key Keyed.resolve Keyed.look_up Keyed.forget Keyed.link_attrs
program = tt

resolve_host_dry_example : (resolve_host platform target (codes "m") true []).1 ≡ []
unfolding platform
resolve_host_dry_example =
    resolve_host_dry platform target (codes "m") (λ a b s. refl) (λ a b c s. refl) []

abbrev fresh_host : Host
fresh_host = record {
  entity_id = codes "m";
  identity = codes "m";
  outcome = created;
  was_created = true;
  to_create = false;
  duplicates = [];
  other_key = [];
}

creates :
    resolve_host platform target (codes "m") false [] ≡ (ok fresh_host, (codes "m", codes "m") ∷ [])
unfolding program
creates = refl

resolve_host_owner_example :
    lookup (codes "m") (resolve_host platform target (codes "m") false []).1 ≡ some (codes "m")
unfolding program
resolve_host_owner_example =
    resolve_host_owner platform HoldsKey target (codes "m") platform-Keeps
      (λ id s h.
        ground
          (arith, lookup-insert (codes "m") (codes "m") id s, bytes_eq_iff (codes "m") (codes "m")))
      (λ s es h. nothing_found _ es h) false [] fresh_host refl refl

upsert-Held_example :
    lookup (codes "k") (upsert platform (codes "disk") (codes "k") [] []).1 ≡ some (codes "k")
unfolding program
upsert-Held_example = upsert-Held platform HoldsKey platform-Keeps (codes "disk") (codes "k") [] []

abbrev OtherHolds : Records → Type 0
OtherHolds s = lookup (codes "other") s ≡ some (codes "r1")

abbrev NoRecord : Bytes → Records → Type 0
NoRecord id s = ⊥

platform-Kept : Kept platform OtherHolds NoRecord target (codes "m")
unfolding platform
platform-Kept = record {
  by_lookup = λ a b s p. p;
  by_upsert = λ a b attrs s p. elim (Option-cases (lookup b s)) [
    | inl absent ↦
        ground (arith, lookup-insert b (codes "other") b s, bytes_eq_iff b (codes "other"))
    | inr (i, held) ↦ rw (held, put_record) p
  ];
  by_set = λ id s f p. absurd f;
  by_search = λ s p. p;
  free_found = λ s es h. nothing_found _ es h;
}

resolve_host_additive_example :
    OtherHolds (resolve_host platform target (codes "m") false ((codes "other", codes "r1") ∷ [])).1
unfolding program
resolve_host_additive_example =
    resolve_host_additive platform OtherHolds NoRecord target (codes "m") platform-Kept false
      ((codes "other", codes "r1") ∷ []) refl

abbrev fresh_cache : Keyed
fresh_cache = record {
  host_id = codes "m";
  host_link = (codes "disk", codes "disk_host") ∷ [];
  dry_run = false;
  ids = [];
}

resolve_again_example :
    Keyed.resolve platform
      (Keyed.resolve platform fresh_cache (codes "disk") (codes "sda") []).1
      (codes "disk")
      (codes "sda")
      []
    ≡ (
      ok (codes "sda", found),
      (Keyed.resolve platform fresh_cache (codes "disk") (codes "sda") []).1,
      [],
    )
unfolding program
resolve_again_example =
    resolve_again platform (codes "disk") (codes "sda") fresh_cache [] [] (codes "sda") created refl
      (λ e. cc)

abbrev known : Keyed
known = record fresh_cache {
  ids =
      (cache_key (codes "disk") (codes "sda"), codes "1")
      ∷ (cache_key (codes "disk") (codes "sdb"), codes "2")
      ∷ [];
}

cache_key-injective_example : (codes "disk" ≡ codes "disk") × (codes "a" ≡ codes "a")
cache_key-injective_example =
    cache_key-injective (codes "disk") (codes "disk") (codes "a") (codes "a") (omega arith)
      (omega arith) refl
