-- ===== src/Collect/Sources/Scheduled.antt =====
-- internal/collect/scheduler.go, Sources: what is scheduled.
use omnistat.Prelude.{
  ℕ, ◌<◌, true, false, not, Bytes, bytes_eq, bytes_eq_iff, bytes_Eq, Map, lookup, lookup-insert,
  List, [], ◌∷◌, ◌++◌, some, ◌≡◌, ◌≢◌, refl, subst, ◌∙◌, arith, All, All-append, ◌==◌, Bool-cases,
  Option-cases, List-cases, inl, inr,
}
use omnistat.Settle.{Result-cases, ok}
use omnistat.Manifest.{is_reference, collectable, DesiredAttribute, Desired}
use omnistat.Collect.Observe.{Source}
use omnistat.Collect.Sources.{
  Module, Skipped, Gathered, classify, classify_all, new_source, schedule, add_module, add_modules,
  sources,
}

-- An attribute that the source may collect under its key.
pub record Fitting (goos name k : Bytes) (a : DesiredAttribute) : Type 0 where
  pub keyed : a.key ≡ k
  pub owned : a.module_name ≡ name
  pub no_reference : is_reference a.kind ≡ false
  pub supported : collectable a.platforms goos ≡ true

-- All attributes of the source may be collected by it.
abbrev pub AllFitting : Bytes → Source → Type 0
AllFitting goos src =
    (k : Bytes) (a : DesiredAttribute)
    → lookup k src.attrs ≡ some a
    → Fitting goos src.module_name k a

-- A source with a positive interval and something to collect.
pub record Scheduled (goos : Bytes) (src : Source) : Type 0 where
  pub positive : 0 < src.interval
  pub some_attrs : src.attrs ≢ []
  pub fitting : AllFitting goos src

module _ (goos : Bytes) where
  -- The parts of a source that its attributes do not change.
  abbrev Same : Source → Source → Type 0
  Same x y = (x.module_name ≡ y.module_name) × (x.interval ≡ y.interval)

  classify-Same :
      (name : Bytes) (a : DesiredAttribute) (x : Source × List Skipped)
      → Same (classify goos name a x).0 x.0
  unfolding classify
  classify-Same name a x = (ground arith, ground arith)

  classify-AllFitting :
      (a : DesiredAttribute) (x : Source × List Skipped)
      → AllFitting goos x.0
      → AllFitting goos (classify goos x.0.module_name a x).0
  unfolding classify
  classify-AllFitting a (src, gated) fit =
      elim (Bool-cases (not (bytes_eq a.module_name src.module_name))) [
        | inl e ↦ rw (e, classify) fit
        | inr own ↦ elim (Bool-cases (is_reference a.kind)) [
          | inl r ↦ rw (own, r, classify) fit
          | inr r ↦ elim (Bool-cases (collectable a.platforms goos)) [
            | inr c ↦ rw (own, r, c, classify) fit
            | inl c ↦
                rw (own, r, c, classify)
                  (λ k b h. elim (Bool-cases (bytes_eq a.key k)) [
                    | inl same ↦
                        let a_b : a ≡ b =
                          ground (arith, h, same, lookup-insert a.key k a src.attrs) in
                        subst (Fitting goos src.module_name k) a_b (record {
                          keyed = (bytes_eq_iff a.key k).0 same;
                          owned =
                              (bytes_eq_iff a.module_name src.module_name).0 (ground (arith, own));
                          no_reference = r;
                          supported = c;
                        })
                    | inr other ↦
                        fit k b (ground (arith, h, other, lookup-insert a.key k a src.attrs))
                  ])
          ]
        ]
      ]

  classify_all_lem :
      (name : Bytes) (attributes : List DesiredAttribute) (x : Source × List Skipped)
      → x.0.module_name ≡ name
      → AllFitting goos x.0
      → Same (classify_all goos name attributes x).0 x.0
        × AllFitting goos (classify_all goos name attributes x).0
  unfolding classify_all
  classify_all_lem name [] x e fit = ((refl, refl), fit)
  classify_all_lem name (a ∷ rest) x e fit =
      let next = classify goos name a x in
      let same = classify-Same name a x in
      let fit' =
        subst (λ n. AllFitting goos (classify goos n a x).0) e (classify-AllFitting a x fit) in
      let (same', all) = classify_all_lem name rest next (same.0 ∙ e) fit' in
      ((same'.0 ∙ same.0, same'.1 ∙ same.1), all)

  module _ (d : Desired) (intervals : Map Bytes ℕ) where
    schedule-Scheduled :
        (x : Source × List Skipped) (g : Gathered)
        → 0 < x.0.interval
        → AllFitting goos x.0
        → All (Scheduled goos) g.out
        → All (Scheduled goos) (schedule d intervals goos x g).out
    unfolding schedule
    schedule-Scheduled (src, gated) g pos fit all = elim (List-cases src.attrs) [
      | inl e ↦ rw (e, schedule) all
      | inr (y, ys, e) ↦
          rw (e, schedule)
            (All-append (Scheduled goos) g.out (src ∷ []) all (
              record { positive = pos; some_attrs = λ n. ground (arith, e, n); fitting = fit },
              tt,
            ))
    ]

    add_module-Scheduled :
        (m : Module) (g g' : Gathered)
        → add_module d intervals goos m g ≡ ok g'
        → All (Scheduled goos) g.out
        → All (Scheduled goos) g'.out
    unfolding add_module
    add_module-Scheduled m g g' h all = elim (Option-cases m.default_interval) [
      | inl e ↦ elim (Option-cases (lookup m.name intervals)) [
        | inl f ↦
            let same : g ≡ g' = ground (arith, h, e, f) in
            subst (λ x. All (Scheduled goos) x.out) same all
        | inr (i, f) ↦
            let same : record g { problems = g.problems ++ m.name ∷ [] } ≡ g' =
              ground (arith, h, e, f) in
            subst (λ x. All (Scheduled goos) x.out) same all
      ]
      | inr (interval, e) ↦
          let src = new_source d intervals m.name interval in
          elim (Bool-cases (src.interval == 0)) [
            | inl z ↦ absurd (ground (arith, h, e, z))
            | inr z ↦
                let x = classify_all goos m.name d.attributes (src, []) in
                let (same, fit) =
                  classify_all_lem m.name d.attributes (src, []) (unfold new_source in refl)
                    (unfold new_source lookup in λ k a n. cc) in
                let made : schedule d intervals goos x g ≡ g' = ground (arith, h, e, z) in
                subst (λ y. All (Scheduled goos) y.out) made
                  (schedule-Scheduled x g (ground (arith, z, same.1)) fit all)
          ]
    ]

    add_modules-Scheduled :
        (ms : List Module) (g g' : Gathered)
        → add_modules d intervals goos ms g ≡ ok g'
        → All (Scheduled goos) g.out
        → All (Scheduled goos) g'.out
    unfolding add_modules
    add_modules-Scheduled [] g g' h all =
        let same : g ≡ g' = ground (arith, h) in subst (λ x. All (Scheduled goos) x.out) same all
    add_modules-Scheduled (m ∷ ms) g g' h all =
        elim (Result-cases (add_module d intervals goos m g)) [
          | inl (e, k) ↦ absurd (ground (arith, h, k))
          | inr (mid, k) ↦
              add_modules-Scheduled ms mid g' (ground (arith, h, k))
                (add_module-Scheduled m g mid k all)
        ]

    -- Every source that Sources returns has a positive interval and something to collect, and its
    -- attributes are its module's own, collectable on the platform, and no references.
    pub sources-Scheduled :
        (ms : List Module) (out : List Source) (skipped : List Skipped)
        → sources d intervals goos ms ≡ ok (out, skipped)
        → All (Scheduled goos) out
    unfolding sources
    sources-Scheduled ms out skipped h =
        let start : Gathered = record { out = []; skipped = []; problems = [] } in
        elim (Result-cases (add_modules d intervals goos ms start)) [
          | inl (e, k) ↦ absurd (ground (arith, h, k))
          | inr (g, k) ↦ elim (List-cases g.problems) [
            | inr (p, ps, e) ↦ absurd (ground (arith, h, k, e))
            | inl e ↦
                let same : g.out ≡ out = ground (arith, h, k, e) in
                subst (All (Scheduled goos)) same (add_modules-Scheduled ms start g k tt)
          ]
        ]
