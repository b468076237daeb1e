-- ===== src/Identity/Keyed.antt =====
-- internal/identity/keyed.go: module-owned entities, resolved when they are first published and
-- remembered for the life of the process.
pub mod Cache
use omnistat.Prelude.{
  ℕ, Bool, true, false, Bytes, Map, lookup, insert, remove, bytes_Eq, List, [], ◌∷◌, ◌++◌, Option,
  none, some, if◌then◌else◌,
}
use omnistat.Settle.{Result, ok, err}
use omnistat.Identity.Api.{Api, ApiError, Attrs, Outcome, found, created, would_create}
use omnistat.Identity.Upsert.{upsert}

pub record Keyed : Type 0 where
  pub host_id : Bytes
  pub host_link : Map Bytes Bytes
  pub dry_run : Bool
  pub ids : Map Bytes Bytes

pub data KeyedError : Type 0 where
  lookup_failed create_failed : ApiError → KeyedError

-- template + "\x00" + key
unfoldable pub cache_key : Bytes → Bytes → Bytes
cache_key template key = template ++ 0 ∷ key

link_to : Option Bytes → Bytes → Attrs
link_to none host = []
link_to (some []) host = []
link_to (some (b ∷ bs)) [] = []
link_to (some (b ∷ bs)) (h ∷ hs) = insert (b ∷ bs) (h ∷ hs) []

-- The host link is written if both ends of it are known.
unfoldable pub link_attrs : Keyed → Bytes → Attrs
unfolding link_to
link_attrs k template = link_to (lookup template k.host_link) k.host_id

module _ {S : Type 0} (api : Api S) where
  abbrev remembered : Keyed → Bytes → Bytes → Bytes → Keyed
  remembered k template key id = record k { ids = insert (cache_key template key) id k.ids }

  create_entity : Keyed → Bytes → Bytes → S → Result KeyedError (Bytes × Outcome) × Keyed × S
  create_entity k template key s =
      let (r, s') = upsert api template key (link_attrs k template) s in
      elim r [
        | err e ↦ (err (create_failed e), k, s')
        | ok (id, fresh) ↦
            (ok (id, if fresh then created else found), remembered k template key id, s')
      ]

  unfoldable pub look_up :
      Keyed → Bytes → Bytes → S → Result KeyedError (Bytes × Outcome) × Keyed × S
  unfolding create_entity
  look_up k template key s =
      let (r, s') = api.entity_by_key template key s in
      elim r [
        | err e ↦ (err (lookup_failed e), k, s')
        | ok (id, present) ↦ elim present [
          | true ↦ (ok (id, found), remembered k template key id, s')
          | false ↦ elim k.dry_run [
            | true ↦ (ok ([], would_create), k, s')
            | false ↦ create_entity k template key s'
          ]
        ]
      ]

  unfoldable pub resolve :
      Keyed → Bytes → Bytes → S → Result KeyedError (Bytes × Outcome) × Keyed × S
  unfolding look_up
  resolve k template key s = elim (lookup (cache_key template key) k.ids) [
    | some id ↦ (ok (id, found), k, s)
    | none ↦ look_up k template key s
  ]

unfoldable pub forget : Keyed → Bytes → Bytes → Keyed
forget k template key = record k { ids = remove (cache_key template key) k.ids }
