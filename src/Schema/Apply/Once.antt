-- ===== src/Schema/Apply/Once.antt =====
-- internal/schema/apply.go: the creations of a run.
use omnistat.Prelude.{
  List-cases, ℕ, zero, suc, ◌+◌, ◌≤◌, Bool, true, false, ◌||◌, Bytes, bytes_eq_iff, ◌∙◌,
  if◌then◌else◌, List, [], ◌∷◌, ◌++◌, Option, none, some, ◌≡◌, refl, arith, Bool-cases,
  Option-cases, inl, inr, count_if, count_if-append,
}
use omnistat.Settle.{Result-cases, Settled-cases, until}
use omnistat.Manifest.{Desired, contains}
use omnistat.Schema.Types.{Current, Action, Resolved, Api}
use omnistat.Schema.Diff.{diff}
use omnistat.Schema.Execute.{exists, execute, resolved_from, merge}
use omnistat.Schema.Apply.{
  ActionResult, Report, ApplyError, action_key, is_bind, done_keys, drop_done, not_yet_done,
  is_exists, performed, stopped, run, redo, verify, finish, apply, max_rereads,
}
use omnistat.Schema.Apply.Keys.{Distinct, diff-creations_once}
use omnistat.Schema.Apply.Creations.{is_create, creation, creations}

-- The actions that were performed or found done.
unfoldable pub actions_of : List ActionResult → List Action
actions_of [] = []
actions_of (r ∷ rs) = r.action ∷ actions_of rs

actions_of-append :
    (xs ys : List ActionResult) → actions_of (xs ++ ys) ≡ actions_of xs ++ actions_of ys
unfolding actions_of
actions_of-append [] ys = refl
actions_of-append (x ∷ xs) ys = ground (arith, actions_of-append xs ys)

module _ (k : Bytes) where
  abbrev pub done_count : Report → ℕ
  done_count rep = creations k (actions_of rep.done)

  pub done_count-performed :
      (a : Action) (skipped : Bool) (r : Resolved) (rep : Report)
      → done_count (performed a skipped r rep) ≡ done_count rep + creations k (a ∷ [])
  unfolding performed
  done_count-performed a skipped r rep =
      let one : List ActionResult = record { action = a; skipped = skipped } ∷ [] in
      let split = actions_of-append rep.done one in
      rw split (
        count_if-append (creation k) (actions_of rep.done) (actions_of one)
        ∙ (unfold actions_of in refl))

  drop_done-creations :
      (did : List Bytes) (actions : List Action)
      → creations k (drop_done did actions) ≤ (if contains k did then 0 else creations k actions)
  unfolding drop_done count_if is_create is_bind
  drop_done-creations did [] = ground arith
  drop_done-creations did (a ∷ rest) =
      ground (arith, drop_done-creations did rest, bytes_eq_iff (action_key a) k)

  did_lem :
      (done : List ActionResult)
      → 1 ≤ creations k (actions_of done)
      → contains k (done_keys done) ≡ true
  unfolding actions_of count_if done_keys contains
  did_lem [] h = absurd (omega (arith, h))
  did_lem (r ∷ rs) h = ground (arith, h, did_lem rs)

  module _ (desired : Desired) (distinct : Distinct desired) where
    replanned :
        (fresh : Current) (done : List ActionResult)
        → creations k (actions_of done) ≤ 1
        → creations k (not_yet_done (diff desired fresh).actions done)
            + creations k (actions_of done)
          ≤ 1
    unfolding not_yet_done
    replanned fresh done h = ground (
      arith,
      drop_done-creations (done_keys done) (diff desired fresh).actions,
      did_lem done,
      diff-creations_once desired fresh k distinct,
    )

    module _ {S : Type 0} (api : Api S) (sleep : ℕ → S → Bool × S) (delays : List ℕ) where
      moved :
          (a : Action) (rest : List Action) (skipped : Bool) (r : Resolved) (rep : Report)
          → creations k (a ∷ rest) + done_count rep ≤ 1
          → creations k rest + done_count (performed a skipped r rep) ≤ 1
      moved a rest skipped r rep h = omega (
        arith,
        h,
        count_if-append (creation k) (a ∷ []) rest,
        done_count-performed a skipped r rep,
      )

      run-once :
          (left : ℕ) (actions : List Action) (rep : Report) (reread : Bool) (s : S)
          → creations k actions + done_count rep ≤ 1
          → done_count (run api sleep delays desired left actions rep reread s).0.0.0 ≤ 1
      unfolding run stopped
      run-once left [] rep reread s h = omega (arith, h)
      run-once zero (a ∷ rest) rep reread s h =
          let x = execute api a rep.resolved s in
          elim (Option-cases x.0) [
            | inl e ↦
                rw (e, run)
                  (run-once zero rest (performed a false x.1.0 rep)
                    (reread || is_bind a.action_type) x.1.1 (moved a rest false x.1.0 rep h))
            | inr (z, e) ↦ rw (e, run, stopped) (omega (arith, h))
          ]
      run-once (suc left) (a ∷ rest) rep0 reread s h =
          let x = execute api a rep0.resolved s in
          elim (Option-cases x.0) [
            | inl e ↦
                rw (e, run)
                  (run-once (suc left) rest (performed a false x.1.0 rep0)
                    (reread || is_bind a.action_type) x.1.1 (moved a rest false x.1.0 rep0 h))
            | inr (z, e) ↦ elim (Bool-cases (is_exists z)) [
              | inr e' ↦ rw (e, e', run, stopped) (omega (arith, h))
              | inl e' ↦
                  let rep = record rep0 { rereads = rep0.rereads + 1 } in
                  let u = until sleep api.read_schema (λ c. exists c a) delays x.1.1 in
                  elim (Settled-cases u.0) [
                    | inl (f, e'') ↦ rw (e, e', e'', run, stopped) (omega (arith, h))
                    | inr (fresh, present, e'') ↦ elim (Bool-cases present) [
                      | inr p ↦ rw (e, e', e'', p, run, stopped) (omega (arith, h))
                      | inl p ↦
                          let skipped = performed a true rep.resolved rep in
                          let counted : done_count skipped ≤ 1 =
                            omega (arith, moved a rest true rep.resolved rep h) in
                          elim (List-cases (diff desired fresh).conflicts) [
                            | inl c ↦
                                rw (e, e', e'', p, c, run)
                                  (run-once left
                                    (not_yet_done (diff desired fresh).actions skipped.done)
                                    (record skipped {
                                      resolved = merge (resolved_from fresh) rep.resolved;
                                    })
                                    reread u.1 (replanned fresh skipped.done counted))
                            | inr (c, cs, e3) ↦ rw (e, e', e'', p, e3, run, stopped) counted
                          ]
                    ]
                  ]
            ]
          ]

      redo-once :
          (actions : List Action) (rep : Report) (s : S)
          → creations k actions + done_count rep ≤ 1
          → done_count (redo api sleep delays desired actions rep s).0.0 ≤ 1
      unfolding redo stopped
      redo-once [] rep s h = omega (arith, h)
      redo-once (a ∷ rest) rep s h =
          let x = execute api a rep.resolved s in
          let next =
            redo-once rest (performed a false x.1.0 rep) x.1.1 (moved a rest false x.1.0 rep h) in
          elim (Option-cases x.0) [
            | inl e ↦ rw (e, redo) next
            | inr (z, e) ↦ elim (Bool-cases (is_exists z)) [
              | inl e' ↦ rw (e, e', redo) next
              | inr e' ↦ rw (e, e', redo, stopped) (omega (arith, h))
            ]
          ]

      verify-once :
          (rep : Report) (s : S)
          → done_count rep ≤ 1
          → done_count (verify api sleep delays desired rep s).0.0 ≤ 1
      unfolding verify
      verify-once rep s h =
          let x = api.read_schema s in
          elim (Result-cases x.0) [
            | inl (e, e') ↦ rw (e', verify) h
            | inr (fresh, e') ↦
                let rep' = record rep { resolved = merge (resolved_from fresh) rep.resolved } in
                elim (List-cases (diff desired fresh).conflicts) [
                  | inl c ↦
                      rw (e', c, verify)
                        (redo-once (not_yet_done (diff desired fresh).actions rep.done) rep' x.1
                          (replanned fresh rep.done h))
                  | inr (c, cs, e'') ↦ rw (e', e'', verify) h
                ]
          ]

      finish-once :
          (out : ((Report × Bool) × Option ApplyError) × S)
          → done_count out.0.0.0 ≤ 1
          → done_count (finish api sleep delays desired out).0.0 ≤ 1
      unfolding finish
      finish-once (((rep, reread), some e), s) h = h
      finish-once (((rep, false), none), s) h = h
      finish-once (((rep, true), none), s) h = verify-once rep s h

      -- If the desired slugs are distinct, a run of ApplyWith performs, or finds done, the
      -- creation of a template or attribute at most once, whatever the platform answers and
      -- however little its reads show.
      pub apply-once :
          (cur : Current) (s : S)
          → creations k (actions_of (apply api sleep delays desired cur s).0.0.done) ≤ 1
      unfolding apply
      apply-once cur s = elim (List-cases (diff desired cur).conflicts) [
        | inr (c, cs, e) ↦ rw (e, apply) (unfold actions_of count_if in omega arith)
        | inl e ↦
            let rep : Report = record {
              done = [];
              failure = none;
              rereads = 0;
              resolved = resolved_from cur;
            } in
            let none_done : done_count rep ≡ 0 = unfold actions_of count_if in refl in
            rw (e, apply)
              (finish-once
                (run api sleep delays desired max_rereads (diff desired cur).actions rep false s)
                (run-once max_rereads (diff desired cur).actions rep false s
                  (omega (arith, none_done, diff-creations_once desired cur k distinct))))
      ]
