-- ===== src/Schema/Apply/Unrepeated.antt =====
-- internal/schema/apply.go: the writes of a run.
use omnistat.Prelude.{
  ℕ, zero, suc, ◌+◌, ◌≤◌, Bool, true, false, ◌||◌, Bytes, bytes_eq, codes, ◌++◌, List, [], ◌∷◌,
  Option, none, some, ◌≡◌, ap, arith, Bool-cases, Option-cases, List-cases, inl, inr, count_if,
}
use omnistat.Settle.{Result-cases, Settled-cases, until}
use omnistat.Manifest.{Desired}
use omnistat.Schema.Types.{Current, Action, Resolved, Api}
use omnistat.Schema.Diff.{diff}
use omnistat.Schema.Execute.{ExecuteError, exists, execute, resolved_from, merge}
use omnistat.Schema.Apply.{
  Report, ApplyError, is_bind, not_yet_done, is_exists, performed, stopped, run, redo, verify,
  finish, apply, max_rereads,
}
use omnistat.Schema.Apply.Keys.{Distinct}
use omnistat.Schema.Apply.Once.{apply-once, done_count, done_count-performed}
use omnistat.Schema.Apply.Written.{
  Writes, no_writes, writing, still, until-writes, Counts, template-Counts, attribute-Counts,
}

module _ {S : Type 0} (api : Api S) (sleep : ℕ → S → Bool × S) (delays : List ℕ) (desired : Desired)
    (k : Bytes) (made : Writes → ℕ) (counts : Counts api k made) where
  -- What was written is counted as done.
  abbrev Counted : Report → S × Writes → Type 0
  Counted rep s = made s.1 ≤ done_count k rep

  execute-Counted :
      (a : Action) (skipped : Bool) (r : Resolved) (rep : Report) (s : S × Writes)
      → Counted rep s
      → Counted (performed a skipped r rep) (execute (writing api) a rep.resolved s).1.1
  execute-Counted a skipped r rep s h = elim (counts.step a rep.resolved s) [
    | inl (fine, more) ↦ omega (arith, h, more, done_count-performed k a skipped r rep)
    | inr same ↦ omega (arith, h, same, done_count-performed k a skipped r rep)
  ]

  failed-Counted :
      (a : Action) (rep : Report) (s : S × Writes) (z : ExecuteError)
      → (execute (writing api) a rep.resolved s).0 ≡ some z
      → Counted rep s
      → Counted rep (execute (writing api) a rep.resolved s).1.1
  failed-Counted a rep s z e h = elim (counts.step a rep.resolved s) [
    | inl (fine, more) ↦ absurd (ground (arith, fine, e))
    | inr same ↦ omega (arith, h, same)
  ]

  run-Counted :
      (left : ℕ) (actions : List Action) (rep : Report) (reread : Bool) (s : S × Writes)
      → Counted rep s
      → let out = run (writing api) (still sleep) delays desired left actions rep reread s in
        Counted out.0.0.0 out.1
  unfolding run stopped
  run-Counted left [] rep reread s h = h
  run-Counted zero (a ∷ rest) rep reread s h =
      let x = execute (writing api) a rep.resolved s in
      elim (Option-cases x.0) [
        | inl e ↦
            rw (e, run)
              (run-Counted zero rest (performed a false x.1.0 rep) (reread || is_bind a.action_type)
                x.1.1 (execute-Counted a false x.1.0 rep s h))
        | inr (z, e) ↦ rw (e, run, stopped) (failed-Counted a rep s z e h)
      ]
  run-Counted (suc left) (a ∷ rest) rep0 reread s h =
      let x = execute (writing api) a rep0.resolved s in
      elim (Option-cases x.0) [
        | inl e ↦
            rw (e, run)
              (run-Counted (suc left) rest (performed a false x.1.0 rep0)
                (reread || is_bind a.action_type) x.1.1 (execute-Counted a false x.1.0 rep0 s h))
        | inr (z, e) ↦
            let h' = failed-Counted a rep0 s z e h in
            elim (Bool-cases (is_exists z)) [
              | inr e' ↦ rw (e, e', run, stopped) h'
              | inl e' ↦
                  let rep = record rep0 { rereads = rep0.rereads + 1 } in
                  let u =
                    until (still sleep) (writing api).read_schema (λ c. exists c a) delays x.1.1 in
                  let same =
                    ap made (until-writes api sleep (λ c. exists c a) delays x.1.1.0 x.1.1.1) in
                  let seen : made u.1.1 ≤ done_count k rep0 = omega (arith, same, h') in
                  elim (Settled-cases u.0) [
                    | inl (f, e'') ↦ rw (e, e', e'', run, stopped) seen
                    | inr (fresh, present, e'') ↦ elim (Bool-cases present) [
                      | inr p ↦ rw (e, e', e'', p, run, stopped) seen
                      | inl p ↦
                          let skipped = performed a true rep.resolved rep in
                          let more : made u.1.1 ≤ done_count k skipped =
                            omega (arith, seen, done_count-performed k a true rep.resolved rep) in
                          elim (List-cases (diff desired fresh).conflicts) [
                            | inl c ↦
                                rw (e, e', e'', p, c, run)
                                  (run-Counted left
                                    (not_yet_done (diff desired fresh).actions skipped.done)
                                    (record skipped {
                                      resolved = merge (resolved_from fresh) rep.resolved;
                                    })
                                    reread u.1 more)
                            | inr (c, cs, e3) ↦ rw (e, e', e'', p, e3, run, stopped) more
                          ]
                    ]
                  ]
            ]
      ]

  redo-Counted :
      (actions : List Action) (rep : Report) (s : S × Writes)
      → Counted rep s
      → let out = redo (writing api) (still sleep) delays desired actions rep s in
        Counted out.0.0 out.1
  unfolding redo stopped
  redo-Counted [] rep s h = h
  redo-Counted (a ∷ rest) rep s h =
      let x = execute (writing api) a rep.resolved s in
      let next =
        redo-Counted rest (performed a false x.1.0 rep) x.1.1
          (execute-Counted a false x.1.0 rep s h) in
      elim (Option-cases x.0) [
        | inl e ↦ rw (e, redo) next
        | inr (z, e) ↦ elim (Bool-cases (is_exists z)) [
          | inl e' ↦ rw (e, e', redo) next
          | inr e' ↦ rw (e, e', redo, stopped) (failed-Counted a rep s z e h)
        ]
      ]

  verify-Counted :
      (rep : Report) (s : S × Writes)
      → Counted rep s
      → let out = verify (writing api) (still sleep) delays desired rep s in Counted out.0.0 out.1
  unfolding verify
  verify-Counted rep s h =
      let x = api.read_schema s.0 in
      elim (Result-cases x.0) [
        | inl (e, e') ↦ rw (e', verify) h
        | inr (fresh, e') ↦
            let rep' = record rep { resolved = merge (resolved_from fresh) rep.resolved } in
            elim (List-cases (diff desired fresh).conflicts) [
              | inl c ↦
                  rw (e', c, verify)
                    (redo-Counted (not_yet_done (diff desired fresh).actions rep.done) rep'
                      (x.1, s.1) h)
              | inr (c, cs, e'') ↦ rw (e', e'', verify) h
            ]
      ]

  finish-Counted :
      (out : ((Report × Bool) × Option ApplyError) × (S × Writes))
      → Counted out.0.0.0 out.1
      → let final = finish (writing api) (still sleep) delays desired out in
        Counted final.0.0 final.1
  unfolding finish
  finish-Counted (((rep, reread), some e), s) h = h
  finish-Counted (((rep, false), none), s) h = h
  finish-Counted (((rep, true), none), s) h = verify-Counted rep s h

  apply-Counted :
      (cur : Current) (s : S)
      → let out = apply (writing api) (still sleep) delays desired cur (s, no_writes) in
        Counted out.0.0 out.1
  unfolding apply
  apply-Counted cur s = elim (List-cases (diff desired cur).conflicts) [
    | inr (c, cs, e) ↦ rw (e, apply) (omega (arith, counts.none_yet))
    | inl e ↦
        let rep : Report = record {
          done = [];
          failure = none;
          rereads = 0;
          resolved = resolved_from cur;
        } in
        rw (e, apply)
          (finish-Counted
            (run (writing api) (still sleep) delays desired max_rereads (diff desired cur).actions
              rep false (s, no_writes))
            (run-Counted max_rereads (diff desired cur).actions rep false (s, no_writes)
              (omega (arith, counts.none_yet))))
  ]

-- The platform created a template of the slug, and an attribute of it, at most once.
abbrev pub WrittenOnce : Bytes → Writes → Type 0
WrittenOnce slug w =
    (count_if (bytes_eq slug) w.templates ≤ 1) × (count_if (bytes_eq slug) w.attributes ≤ 1)

-- If the desired slugs are distinct, the platform creates a template of a slug, and an attribute
-- of a slug, at most once in a run of ApplyWith, whatever it answers and however little its reads
-- show.
pub apply-WrittenOnce :
    {S : Type 0} (api : Api S) (sleep : ℕ → S → Bool × S) (delays : List ℕ) (desired : Desired)
    (slug : Bytes) (cur : Current) (s : S)
    → Distinct desired
    → WrittenOnce slug (apply (writing api) (still sleep) delays desired cur (s, no_writes)).1.1
apply-WrittenOnce api sleep delays desired slug cur s distinct =
    let template = codes "create_template" ++ codes " " ++ slug in
    let attribute = codes "create_attribute" ++ codes " " ++ slug in
    (
      omega (
        arith,
        apply-Counted api sleep delays desired template _ (template-Counts api slug) cur s,
        apply-once template desired distinct (writing api) (still sleep) delays cur (s, no_writes),
      ),
      omega (
        arith,
        apply-Counted api sleep delays desired attribute _ (attribute-Counts api slug) cur s,
        apply-once attribute desired distinct (writing api) (still sleep) delays cur (s, no_writes),
      ),
    )
