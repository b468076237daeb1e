-- ===== src/Schema/Apply.antt =====
-- internal/schema/apply.go: executing a plan against a platform that other hosts write to as well.
pub mod Converged
pub mod Creations
pub mod Keys
pub mod Once
pub mod Written
pub mod Unrepeated
pub mod Options
pub mod Ids
pub mod Noted
pub mod Kept
use omnistat.Prelude.{
  ℕ, zero, suc, ◌+◌, Bool, true, false, not, ◌&&◌, ◌||◌, Bytes, codes, bytes_eq, bytes_lt, bytes_Eq,
  Map, lookup, insert, List, [], ◌∷◌, ◌++◌, map, Option, none, some, if◌then◌else◌, sort,
}
use omnistat.Settle.{Result, ok, err, Settled, finished, failed, until}
use omnistat.Manifest.{Kind, is_reference, Desired, contains}
use omnistat.Schema.Types.{
  CurrentTemplate, CurrentAttribute, Current, ActionType, create_template, create_attribute,
  add_list_option, bind_attribute, Action, slug_of, Conflict, Plan, Resolved, or_empty, ApiError,
  already_exists, other_error, CreateTemplateParams, CreateAttributeParams, Api,
}
use omnistat.Schema.Diff.{diff}
use omnistat.Schema.Execute.{
  ExecuteError, order_violated, api_error, template_ids_of, attribute_ids_of, list_items_of,
  resolved_from, overlay, overlay_items, merge, exists, or_blank, is_blank, ids_of, attribute_id_of,
  with_item, bind_ids, attribute_params, lacks_reference, execute_template, create_with,
  execute_attribute, execute_option, execute_bind, execute,
}

abbrev pub max_rereads : ℕ
max_rereads = 5

pub data ApplyError : Type 0 where
  conflict_error : List Conflict → ApplyError
  reread_failed verify_failed : ApiError → ApplyError
  action_failed : ExecuteError → ApplyError

pub record ActionResult : Type 0 where
  pub action : Action
  pub skipped : Bool

-- `Result` in the source.
pub record Report : Type 0 where
  pub done : List ActionResult
  pub failure : Option (Action × ApplyError)
  pub rereads : ℕ
  pub resolved : Resolved

unfoldable pub action_name : ActionType → Bytes
action_name create_template = codes "create_template"
action_name create_attribute = codes "create_attribute"
action_name add_list_option = codes "add_list_option"
action_name bind_attribute = codes "bind_attribute"

unfoldable pub is_bind : ActionType → Bool
is_bind bind_attribute = true
is_bind _ = false

-- The key of an action in the set `did`.
unfoldable pub action_key : Action → Bytes
action_key a = action_name a.action_type ++ codes " " ++ slug_of a

unfoldable pub done_keys : List ActionResult → List Bytes
done_keys [] = []
done_keys (r ∷ rs) = action_key r.action ∷ done_keys rs

unfoldable pub drop_done : List Bytes → List Action → List Action
drop_done did [] = []
drop_done did (a ∷ rest) =
    let kept = drop_done did rest in
    if not (is_bind a.action_type) && contains (action_key a) did then kept else a ∷ kept

unfoldable pub not_yet_done : List Action → List ActionResult → List Action
not_yet_done actions done = drop_done (done_keys done) actions

unfoldable pub is_exists : ExecuteError → Bool
is_exists (order_violated slug) = false
is_exists (api_error already_exists) = true
is_exists (api_error (other_error m)) = false

unfoldable pub performed : Action → Bool → Resolved → Report → Report
performed a skipped r rep = record rep {
  done = rep.done ++ record { action = a; skipped = skipped } ∷ [];
  resolved = r;
}

unfoldable pub stopped : Action → ApplyError → Report → Report
stopped a e rep = record rep { failure = some (a, e) }

module _ {S : Type 0} (api : Api S) (sleep : ℕ → S → Bool × S) (delays : List ℕ)
    (desired : Desired) where
  -- `left` counts the re-reads that are still allowed, so `zero` is the exhausted bound; a re-read
  -- lowers it, and every other step shortens the list.
  unfoldable pub run :
      ℕ → List Action → Report → Bool → S → ((Report × Bool) × Option ApplyError) × S
  run left [] rep reread s = (((rep, reread), none), s)
  run zero (a ∷ rest) rep reread s =
      let (e, (r, s')) = execute api a rep.resolved s in
      elim e [
        | none ↦ run zero rest (performed a false r rep) (reread || is_bind a.action_type) s'
        | some x ↦ (((stopped a (action_failed x) rep, reread), some (action_failed x)), s')
      ]
  run (suc left) (a ∷ rest) rep0 reread s =
      let (e, (r, s')) = execute api a rep0.resolved s in
      elim e [
        | none ↦ run (suc left) rest (performed a false r rep0) (reread || is_bind a.action_type) s'
        | some x ↦ elim (is_exists x) [
          | false ↦ (((stopped a (action_failed x) rep0, reread), some (action_failed x)), s')
          | true ↦
              let rep = record rep0 { rereads = rep0.rereads + 1 } in
              let (seen, s'') = until sleep api.read_schema (λ c. exists c a) delays s' in
              elim seen [
                | failed f ↦
                    (((stopped a (reread_failed f) rep, reread), some (reread_failed f)), s'')
                | finished fresh present ↦ elim present [
                  | false ↦
                      (((stopped a (action_failed x) rep, reread), some (action_failed x)), s'')
                  | true ↦
                      let plan = diff desired fresh in
                      let skipped = performed a true rep.resolved rep in
                      elim plan.conflicts [
                        | c ∷ cs ↦ (
                          (
                            (stopped a (action_failed x) skipped, reread),
                            some (conflict_error (c ∷ cs)),
                          ),
                          s'',
                        )
                        | [] ↦
                            run left (not_yet_done plan.actions skipped.done)
                              (record skipped {
                                resolved = merge (resolved_from fresh) rep.resolved;
                              })
                              reread s''
                      ]
                ]
              ]
        ]
      ]

  -- The actions that the verification does again.
  unfoldable pub redo : List Action → Report → S → (Report × Option ApplyError) × S
  redo [] rep s = ((rep, none), s)
  redo (a ∷ rest) rep s =
      let (e, (r, s')) = execute api a rep.resolved s in
      elim e [
        | none ↦ redo rest (performed a false r rep) s'
        | some x ↦ elim (is_exists x) [
          | true ↦ redo rest (performed a false r rep) s'
          | false ↦ ((stopped a (action_failed x) rep, some (action_failed x)), s')
        ]
      ]

  -- One read after binds, because another host may have undone one.
  unfoldable pub verify : Report → S → (Report × Option ApplyError) × S
  verify rep0 s =
      let (r, s') = api.read_schema s in
      elim r [
        | err e ↦ ((rep0, some (verify_failed e)), s')
        | ok fresh ↦
            let rep = record rep0 { resolved = merge (resolved_from fresh) rep0.resolved } in
            let plan = diff desired fresh in
            elim plan.conflicts [
              | c ∷ cs ↦ ((rep, none), s')
              | [] ↦ redo (not_yet_done plan.actions rep.done) rep s'
            ]
      ]

  unfoldable pub finish :
      ((Report × Bool) × Option ApplyError) × S → (Report × Option ApplyError) × S
  finish (((rep, reread), some e), s) = ((rep, some e), s)
  finish (((rep, false), none), s) = ((rep, none), s)
  finish (((rep, true), none), s) = verify rep s

  unfoldable pub apply : Current → S → (Report × Option ApplyError) × S
  apply cur s =
      let plan = diff desired cur in
      let nothing : Report = record {
        done = [];
        failure = none;
        rereads = 0;
        resolved = record { templates = []; attributes = []; list_items = [] };
      } in
      elim plan.conflicts [
        | c ∷ cs ↦ ((nothing, some (conflict_error (c ∷ cs))), s)
        | [] ↦
            finish (
              run max_rereads plan.actions (record nothing { resolved = resolved_from cur }) false
                s)
      ]
