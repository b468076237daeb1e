-- ===== src/Upgrade/Command/Handover.antt =====
-- internal/cli/upgrade.go, Install and the steps around it: what they do to the installed service.
use Prim.Native.Nat.{Ordering}
use omnistat.Prelude.{
  ℕ, List, [], ◌∷◌, Bool, true, false, not, ◌&&◌, Bytes, Option, none, some, ◌≡◌, refl, sym, ◌∙◌,
  subst, ◌⊎◌, inl, inr, codes, ◌++◌, Bool-cases, Option-cases, if◌then◌else◌, arith,
}
use omnistat.Settle.{Result, ok, err, Result-cases}
use omnistat.Upgrade.Release.{Release}
use omnistat.Upgrade.Machine.{Machine, Leaves, Installation}
use omnistat.Upgrade.Command.{
  Aside, End, failed, not_run, ended_with, not_moved, exit_code, Options, runs_from, decide_by,
  end_of, finish, hand_over, install_args, make_way, step_aside,
}

-- The end comes after the handover.
unfoldable pub handed_over : {E : Type 0} → End E → Bool
handed_over (not_run e) = true
handed_over (ended_with n) = true
handed_over _ = false

pub decide_by-ends :
    {E : Type 0} (o : Options) (rel : Release) (c : Ordering) (end : End E)
    → decide_by o rel c ≡ some end
    → handed_over end ≡ false
unfolding decide_by handed_over
decide_by-ends o rel Ordering.eq end h = ground (arith, h)
decide_by-ends o rel Ordering.lt end h = ground (arith, h)
decide_by-ends o rel Ordering.gt end h = ground (arith, h)

-- The arguments of `service install`.
abbrev pub service_install : Bool → List Bytes
service_install dry_run =
    codes "service" ∷ codes "install" ∷ (if dry_run then codes "--dry-run" ∷ [] else [])

-- The command ends as the installation did: with its exit status, or with 1 if it did not run.
abbrev pub Follows : {E : Type 0} → Result E ℕ → End E → Type 0
Follows (err e) end = (end ≡ not_run e) × (exit_code end ≡ 1)
Follows (ok n) end = (end ≡ ended_with n) × (exit_code end ≡ n)

end_of-Follows : {E : Type 0} (r : Result E ℕ) → Follows r (end_of r)
unfolding end_of exit_code
end_of-Follows (err e) = (refl, refl)
end_of-Follows (ok n) = (refl, refl)

module _ {S E V : Type 0} (m : Machine S E) (o : Options) (view : S → V) (P : Bytes → Type 0) where
  -- The service is left alone, or `service install` of one binary, of which `P` holds, is run once,
  -- on the service as it was, and decides the end.
  abbrev pub ActsBy : V → End E × S → Type 0
  ActsBy v r =
      ((view r.1 ≡ v) × (handed_over r.0 ≡ false))
      ⊎ ((bin : Bytes) × (at : S) × P bin
          × (view at ≡ v)
          × Follows (m.install bin (service_install o.dry_run) at).0 r.0
          × (view r.1 ≡ view (m.install bin (service_install o.dry_run) at).1))

  -- A step that goes on elsewhere, and one that ends the command without a handover.
  pub goes_on :
      (v : V) (s : S) (r q : End E × S) → view s ≡ v → r ≡ q → ActsBy (view s) q → ActsBy v r
  goes_on v s r q same e h = subst (ActsBy v) (sym e) (subst (λ w. ActsBy w q) same h)

  pub ends :
      (v : V) (end : End E) (s : S) (r : End E × S)
      → handed_over end ≡ false
      → view s ≡ v
      → r ≡ (end, s)
      → ActsBy v r
  ends v end s r h same e = subst (ActsBy v) (sym e) (inl (same, h))

module _ {S E V : Type 0} (m : Machine S E) (o : Options) (view : S → V) (l : Leaves m view)
    (P : Bytes → Type 0) where
  finish-view : (a : Option Aside) (s : S) → view (finish m o a s) ≡ view s
  unfolding finish
  finish-view none s = refl
  finish-view (some a) s = elim (Bool-cases (m.exists a.self s).0) [
    | inl e ↦ rw e (l.remove_at_restart a.moved a.stage (m.exists a.self s).1 ∙ l.exists a.self s)
    | inr e ↦ rw e (l.rename a.moved a.self (m.exists a.self s).1 ∙ l.exists a.self s)
  ]

  hand_over-ActsBy :
      (bin : Bytes) (a : Option Aside) (s : S)
      → P bin
      → ActsBy m o view P (view s) (hand_over m o bin a s)
  unfolding hand_over install_args
  hand_over-ActsBy bin a s p = inr (
    bin,
    s,
    p,
    refl,
    end_of-Follows (m.install bin (service_install o.dry_run) s).0,
    finish-view a (m.install bin (service_install o.dry_run) s).1,
  )

  step_aside-view : (self path : Bytes) (s : S) → view (step_aside m o self path s).1 ≡ view s
  unfolding step_aside
  step_aside-view self path s =
      let moved = m.join path (codes "omnistat-previous" ++ m.ext self) in
      elim (Option-cases (m.rename self moved s).0) [
        | inr (x, r) ↦ rw (r, step_aside) (l.rename self moved s)
        | inl r ↦ rw (r, step_aside) (l.rename self moved s)
      ]

  pub make_way-ActsBy :
      (i : Installation) (path bin : Bytes) (s : S)
      → P bin
      → ActsBy m o view P (view s) (make_way m o i path bin s)
  unfolding make_way handed_over
  make_way-ActsBy i path bin s p =
      let (program, s1) = m.executable s in
      let here = l.executable s in
      elim (Option-cases program) [
        | inl e ↦
            goes_on m o view P _ s1 _ _ here (rw (e, make_way) refl)
              (hand_over-ActsBy bin none s1 p)
        | inr (self, e) ↦ elim (Bool-cases (not o.dry_run && runs_from m o self i.binary)) [
          | inr b ↦
              goes_on m o view P _ s1 _ _ here (rw (e, b, make_way) refl)
                (hand_over-ActsBy bin none s1 p)
          | inl b ↦
              let (r, s2) = step_aside m o self path s1 in
              let same = step_aside-view self path s1 ∙ here in
              elim (Result-cases r) [
                | inl (x, q) ↦
                    ends m o view P _ (failed (not_moved x)) s2 _ refl same
                      (rw (e, b, q, make_way) refl)
                | inr (a, q) ↦
                    goes_on m o view P _ s2 _ _ same (rw (e, b, q, make_way) refl)
                      (hand_over-ActsBy bin (some a) s2 p)
              ]
        ]
      ]
