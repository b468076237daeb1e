-- ===== src/Schema/Apply/Kept.antt =====
-- internal/schema/apply.go: the ids of a whole run.
use omnistat.Prelude.{
  ℕ, zero, suc, ◌+◌, Bool, true, false, ◌||◌, bytes_Eq, lookup, List, [], ◌∷◌, Option, none, some,
  ◌≡◌, sym, subst, arith, Bool-cases, Option-cases, List-cases, inl, inr,
}
use omnistat.Settle.{Result-cases, Settled-cases, until}
use omnistat.Manifest.{Desired}
use omnistat.Schema.Types.{Current, Action, Resolved, Api}
use omnistat.Schema.Diff.{diff}
use omnistat.Schema.Execute.{
  ExecuteError, execute_template, execute_attribute, create_with, execute_option, execute_bind,
  resolved_from, merge, execute, exists,
}
use omnistat.Schema.Apply.{
  Report, ApplyError, is_exists, performed, stopped, not_yet_done, is_bind, run, redo, verify,
  finish, apply, max_rereads,
}
use omnistat.Schema.Apply.Noted.{execute-Known, until-ids}
use omnistat.Schema.Apply.Ids.{
  Ids, no_ids, noting, quiet, Known, merge-Known, template_ids_of-Unique, attribute_ids_of-Unique,
}

nothing-Known : Known no_ids (record { templates = []; attributes = []; list_items = [] })
unfolding lookup
nothing-Known = record {
  templates_unique = tt;
  attributes_unique = tt;
  templates = λ slug id h. cc;
  attributes = λ slug id h. cc;
}

start-Known : (cur : Current) → Known no_ids (resolved_from cur)
unfolding resolved_from lookup
start-Known cur = record {
  templates_unique = template_ids_of-Unique cur.templates [] tt;
  attributes_unique = attribute_ids_of-Unique cur.attributes [] tt;
  templates = λ slug id h. cc;
  attributes = λ slug id h. cc;
}

-- An action that fails changes nothing that is resolved.
module _ {S : Type 0} (api : Api S) where
  execute-failed :
      (a : Action) (r : Resolved) (s : S) (z : ExecuteError)
      → (execute api a r s).0 ≡ some z
      → (execute api a r s).1.0 ≡ r
  unfolding execute execute_template execute_attribute create_with execute_option execute_bind
  execute-failed a r s z h = ground (arith, h)

module _ {S : Type 0} (api : Api S) (sleep : ℕ → S → Bool × S) (delays : List ℕ)
    (desired : Desired) where
  failed-Known :
      (a : Action) (r : Resolved) (s : S × Ids) (z : ExecuteError)
      → (execute (noting api) a r s).0 ≡ some z
      → Known s.1 r
      → Known (execute (noting api) a r s).1.1.1 r
  failed-Known a r s z h known =
      let x = execute (noting api) a r s in
      subst (Known x.1.1.1) (execute-failed (noting api) a r s z h)
        (execute-Known api a r s.0 s.1 known)

  run-Known :
      (left : ℕ) (actions : List Action) (rep : Report) (reread : Bool) (s : S × Ids)
      → Known s.1 rep.resolved
      → let out = run (noting api) (quiet sleep) delays desired left actions rep reread s in
        Known out.1.1 out.0.0.0.resolved
  unfolding run stopped performed
  run-Known left [] rep reread s known = known
  run-Known zero (a ∷ rest) rep reread s known =
      let x = execute (noting api) a rep.resolved s in
      elim (Option-cases x.0) [
        | inl e ↦
            rw (e, run)
              (run-Known zero rest (performed a false x.1.0 rep) (reread || is_bind a.action_type)
                x.1.1 (execute-Known api a rep.resolved s.0 s.1 known))
        | inr (z, e) ↦ rw (e, run, stopped) (failed-Known a rep.resolved s z e known)
      ]
  run-Known (suc left) (a ∷ rest) rep0 reread s known =
      let x = execute (noting api) a rep0.resolved s in
      elim (Option-cases x.0) [
        | inl e ↦
            rw (e, run)
              (run-Known (suc left) rest (performed a false x.1.0 rep0)
                (reread || is_bind a.action_type) x.1.1
                (execute-Known api a rep0.resolved s.0 s.1 known))
        | inr (z, e) ↦
            let known' = failed-Known a rep0.resolved s z e known in
            elim (Bool-cases (is_exists z)) [
              | inr e' ↦ rw (e, e', run, stopped) known'
              | inl e' ↦
                  let rep = record rep0 { rereads = rep0.rereads + 1 } in
                  let u =
                    until (quiet sleep) (noting api).read_schema (λ c. exists c a) delays x.1.1 in
                  let seen =
                    subst (λ i. Known i rep0.resolved)
                      (sym (until-ids api sleep (λ c. exists c a) delays x.1.1.0 x.1.1.1)) known' in
                  elim (Settled-cases u.0) [
                    | inl (f, e'') ↦ rw (e, e', e'', run, stopped) seen
                    | inr (fresh, present, e'') ↦ elim (Bool-cases present) [
                      | inr p ↦ rw (e, e', e'', p, run, stopped) seen
                      | inl p ↦
                          let skipped = performed a true rep.resolved rep in
                          elim (List-cases (diff desired fresh).conflicts) [
                            | inl c ↦
                                rw (e, e', e'', p, c, run)
                                  (run-Known left
                                    (not_yet_done (diff desired fresh).actions skipped.done)
                                    (record skipped {
                                      resolved = merge (resolved_from fresh) rep.resolved;
                                    })
                                    reread u.1 (merge-Known fresh rep.resolved u.1.1 seen))
                            | inr (c, cs, e3) ↦ rw (e, e', e'', p, e3, run, stopped) seen
                          ]
                    ]
                  ]
            ]
      ]

  redo-Known :
      (actions : List Action) (rep : Report) (s : S × Ids)
      → Known s.1 rep.resolved
      → let out = redo (noting api) (quiet sleep) delays desired actions rep s in
        Known out.1.1 out.0.0.resolved
  unfolding redo stopped performed
  redo-Known [] rep s known = known
  redo-Known (a ∷ rest) rep s known =
      let x = execute (noting api) a rep.resolved s in
      let next =
        redo-Known rest (performed a false x.1.0 rep) x.1.1
          (execute-Known api a rep.resolved s.0 s.1 known) in
      elim (Option-cases x.0) [
        | inl e ↦ rw (e, redo) next
        | inr (z, e) ↦ elim (Bool-cases (is_exists z)) [
          | inl e' ↦ rw (e, e', redo) next
          | inr e' ↦ rw (e, e', redo, stopped) (failed-Known a rep.resolved s z e known)
        ]
      ]

  verify-Known :
      (rep : Report) (s : S × Ids)
      → Known s.1 rep.resolved
      → let out = verify (noting api) (quiet sleep) delays desired rep s in
        Known out.1.1 out.0.0.resolved
  unfolding verify
  verify-Known rep s known =
      let x = api.read_schema s.0 in
      elim (Result-cases x.0) [
        | inl (e, e') ↦ rw (e', verify) known
        | inr (fresh, e') ↦
            let rep' = record rep { resolved = merge (resolved_from fresh) rep.resolved } in
            let known' = merge-Known fresh rep.resolved s.1 known in
            elim (List-cases (diff desired fresh).conflicts) [
              | inl c ↦
                  rw (e', c, verify)
                    (redo-Known (not_yet_done (diff desired fresh).actions rep.done) rep' (x.1, s.1)
                      known')
              | inr (c, cs, e'') ↦ rw (e', e'', verify) known'
            ]
      ]

  finish-Known :
      (out : ((Report × Bool) × Option ApplyError) × (S × Ids))
      → Known out.1.1 out.0.0.0.resolved
      → let final = finish (noting api) (quiet sleep) delays desired out in
        Known final.1.1 final.0.0.resolved
  unfolding finish
  finish-Known (((rep, reread), some e), s) known = known
  finish-Known (((rep, false), none), s) known = known
  finish-Known (((rep, true), none), s) known = verify-Known rep s known

  -- However a run of ApplyWith ends, each template and attribute that one of its writes created is
  -- resolved to the id that the last such write returned, whatever the reads showed.
  pub apply-Known :
      (cur : Current) (s : S)
      → let out = apply (noting api) (quiet sleep) delays desired cur (s, no_ids) in
        Known out.1.1 out.0.0.resolved
  unfolding apply
  apply-Known cur s = elim (List-cases (diff desired cur).conflicts) [
    | inr (c, cs, e) ↦ rw (e, apply) nothing-Known
    | inl e ↦
        let rep : Report = record {
          done = [];
          failure = none;
          rereads = 0;
          resolved = resolved_from cur;
        } in
        rw (e, apply)
          (finish-Known
            (run (noting api) (quiet sleep) delays desired max_rereads (diff desired cur).actions
              rep false (s, no_ids))
            (run-Known max_rereads (diff desired cur).actions rep false (s, no_ids)
              (start-Known cur)))
  ]
