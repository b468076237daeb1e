-- ===== src/Publish/Entities/Counted.antt =====
-- internal/publish/entities.go: the counts of a publish of everything.
use omnistat.Prelude.{
  insert_sorted, sort, beq_refl, ℕ, suc, ◌+◌, Bool, false, bytes_Eq, Map, lookup, lookup-insert,
  Unique, List, [], ◌∷◌, Option, none, some, ◌≡◌, inl, inr, refl, ap, ◌∙◌, arith, All, Bool-cases,
  Option-cases, if◌then◌else◌,
}
use omnistat.Settle.{Result-cases}
use omnistat.Collect.Sample.{Target, target_Eq, target_eq}
use omnistat.Collect.Buffer.{Buffer, snapshot, ack}
use omnistat.Collect.Buffers.{Buffers, targets, target_keys, target_lt, for_target}
use omnistat.Collect.Buffers.Distinct.{Distinct, targets-Distinct, absent_lem}
use omnistat.Publish.Types.{Api, Outcome, PublishError, nothing_done}
use omnistat.Publish.Render.{Formats}
use omnistat.Publish.Batch.{publish, batch_is_empty}
use omnistat.Publish.Entities.{
  Resolver, Entities, add_counts, is_gone, settle_entity, publish_resolved, publish_entity,
  publish_entities, publish_rest, after_host, publish_all,
}

-- The entities with something to publish.
unfoldable pub pending_of : Option Buffer → ℕ
pending_of none = 0
pending_of (some buf) = if batch_is_empty (snapshot buf) then 0 else 1

unfoldable pub pending : Map Target Buffer → List Target → ℕ
unfolding pending_of
pending m [] = 0
pending m (t ∷ ts) = pending_of (lookup t m) + pending m ts

-- The buffers that have something to publish.
unfoldable pub busy : Map Target Buffer → ℕ
unfolding pending_of
busy [] = 0
busy ((t, buf) ∷ m) = pending_of (some buf) + busy m

pending-insert_sorted :
    (m : Map Target Buffer) (t : Target) (ts : List Target)
    → pending m (insert_sorted target_lt t ts) ≡ pending_of (lookup t m) + pending m ts
unfolding pending insert_sorted
pending-insert_sorted m t [] = refl
pending-insert_sorted m t (u ∷ ts) = ground (arith, pending-insert_sorted m t ts)

pending-sort :
    (m : Map Target Buffer) (ts : List Target) → pending m (sort target_lt ts) ≡ pending m ts
unfolding pending sort
pending-sort m [] = refl
pending-sort m (t ∷ ts) =
    omega (arith, pending-insert_sorted m t (sort target_lt ts), pending-sort m ts)

-- An entry more changes nothing for the other targets.
pending-cons :
    (t : Target) (buf : Buffer) (m : Map Target Buffer) (ts : List Target)
    → All (λ u. target_eq t u ≡ false) ts
    → pending ((t, buf) ∷ m) ts ≡ pending m ts
unfolding pending lookup
pending-cons t buf m [] a = refl
pending-cons t buf m (u ∷ ts) a = rw (a.0, pending-cons t buf m ts a.1) refl

pending-target_keys : (m : Map Target Buffer) → Unique m → pending m (target_keys m) ≡ busy m
unfolding pending target_keys busy lookup
pending-target_keys [] u = refl
pending-target_keys ((t, buf) ∷ m) u =
    let rest = pending-cons t buf m (target_keys m) (absent_lem t m u.0) in
    rw (beq_refl t, rest, pending-target_keys m u.1) refl

pending-targets : (b : Buffers) → Unique b.targets → pending b.targets (targets b) ≡ busy b.targets
unfolding targets
pending-targets b u =
    pending-sort b.targets (target_keys b.targets) ∙ pending-target_keys b.targets u

-- Is the host's own entity gone?
unfoldable pub host_gone : Option PublishError → Bool
host_gone none = false
host_gone (some x) = is_gone x

module _ {E S : Type 0} (api : Api S) (f : Formats) (resolver : Resolver E S) (e : Entities) where
  pub publish_entity-other :
      (t u : Target) (x : Buffers × Outcome) (s : S)
      → target_eq t u ≡ false
      → lookup u (publish_entity api f resolver e t x s).0.0.targets ≡ lookup u x.0.targets
  unfolding publish_entity publish_resolved for_target
  publish_entity-other t u (bufs, total) s h = elim (Option-cases (lookup t bufs.targets)) [
    | inl k ↦ rw (k, publish_entity) refl
    | inr (buf, k) ↦ elim (Bool-cases (batch_is_empty (snapshot buf))) [
      | inl l ↦ rw (k, l, publish_entity) refl
      | inr l ↦ elim (Result-cases (resolver.resolve t.module_name t.template t.key s).0) [
        | inl (x, m) ↦ rw (k, l, m, publish_entity) refl
        | inr (x, m) ↦
            rw (k, l, m, publish_entity, publish_resolved)
              (lookup-insert t u _ bufs.targets ∙ (rw h refl))
      ]
    ]
  ]

  settled_count :
      (t : Target) (x : Option PublishError) (total : Outcome) (s : S)
      → let r = (settle_entity api f resolver e t x total s).0 in
        r.entities + r.entities_failed ≡ suc (total.entities + total.entities_failed)
  unfolding settle_entity
  settled_count t none total s = omega arith
  settled_count t (some x) total s = elim (Bool-cases (is_gone x)) [
    | inl h ↦ rw (h, settle_entity) (omega arith)
    | inr h ↦ rw (h, settle_entity) (omega arith)
  ]

  publish_entity-counted :
      (t : Target) (x : Buffers × Outcome) (s : S)
      → let r = (publish_entity api f resolver e t x s).0.1 in
        r.entities + r.entities_failed
        ≡ pending_of (lookup t x.0.targets) + (x.1.entities + x.1.entities_failed)
  unfolding publish_entity publish_resolved for_target pending_of add_counts
  publish_entity-counted t (bufs, total) s = elim (Option-cases (lookup t bufs.targets)) [
    | inl k ↦ rw (k, publish_entity, pending_of) (omega arith)
    | inr (buf, k) ↦ elim (Bool-cases (batch_is_empty (snapshot buf))) [
      | inl l ↦ rw (k, l, publish_entity, pending_of) (omega arith)
      | inr l ↦ elim (Result-cases (resolver.resolve t.module_name t.template t.key s).0) [
        | inl (x, m) ↦ rw (k, l, m, publish_entity, pending_of) (omega arith)
        | inr (x, m) ↦
            rw (k, l, m, publish_entity, pending_of, publish_resolved)
              (settled_count t _ _ _ ∙ omega arith)
      ]
    ]
  ]

  pending-other :
      (t : Target) (ts : List Target) (x : Buffers × Outcome) (s : S)
      → All (λ u. target_eq t u ≡ false) ts
      → pending (publish_entity api f resolver e t x s).0.0.targets ts ≡ pending x.0.targets ts
  unfolding pending
  pending-other t [] x s a = refl
  pending-other t (u ∷ ts) x s a =
      omega (arith, ap pending_of (publish_entity-other t u x s a.0), pending-other t ts x s a.1)

  publish_entities-counted :
      (ts : List Target) (x : Buffers × Outcome) (s : S)
      → Distinct ts
      → let r = (publish_entities api f resolver e ts x s).0.1 in
        r.entities + r.entities_failed
        ≡ pending x.0.targets ts + (x.1.entities + x.1.entities_failed)
  unfolding publish_entities pending
  publish_entities-counted [] x s d = omega arith
  publish_entities-counted (t ∷ ts) x s d =
      let next = publish_entity api f resolver e t x s in
      omega (
        arith,
        publish_entities-counted ts next.0 next.1 d.1,
        pending-other t ts x s d.0,
        publish_entity-counted t x s,
      )

  publish_rest-counted :
      (host_error : Option PublishError) (x : Buffers × Outcome) (s : S)
      → Unique x.0.targets
      → let r = (publish_rest api f resolver e host_error x s).0.0.1 in
        r.entities + r.entities_failed ≡ busy x.0.targets + (x.1.entities + x.1.entities_failed)
  unfolding publish_rest
  publish_rest-counted host_error x s u =
      publish_entities-counted (targets x.0) x s (targets-Distinct x.0 u)
      ∙ omega (arith, pending-targets x.0 u)

  after_host-counted :
      (g : Option PublishError) (x : Buffers × Outcome) (s : S)
      → Unique x.0.targets
      → x.1.entities + x.1.entities_failed ≡ 0
      → let out = after_host api f resolver e g x s in
        out.0.0.1.entities + out.0.0.1.entities_failed
        ≡ (if host_gone out.0.1 then 0 else busy x.0.targets)
  unfolding after_host host_gone publish_rest
  after_host-counted none x s u z = omega (arith, z, publish_rest-counted none x s u)
  after_host-counted (some g) x s u z = elim (Bool-cases (is_gone g)) [
    | inl h ↦ rw (h, after_host, h) z
    | inr h ↦
        rw (h, after_host, publish_rest, h) (omega (arith, z, publish_rest-counted (some g) x s u))
  ]

  -- If each entity has one buffer, each module-owned entity with something buffered is counted
  -- once, as published or as failed, unless the host's own entity is gone, when none is counted.
  pub publish_all-counted :
      (bufs : Buffers) (s : S)
      → Unique bufs.targets
      → let out = publish_all api f resolver e bufs s in
        out.0.0.1.entities + out.0.0.1.entities_failed
        ≡ (if host_gone out.0.1 then 0 else busy bufs.targets)
  unfolding publish_all publish_rest host_gone add_counts targets
  publish_all-counted bufs s u =
      let batch = snapshot bufs.host_buffer in
      let out = publish api f e.host batch s in
      elim (Bool-cases (batch_is_empty batch)) [
        | inl h ↦
            rw (h, publish_all) (publish_rest-counted none (bufs, nothing_done) s u ∙ omega arith)
        | inr h ↦
            rw (h, publish_all)
              (after_host-counted out.0.1
                (
                  record bufs { host_buffer = ack bufs.host_buffer batch out.0.0.ack },
                  add_counts nothing_done out.0.0,
                )
                out.1 u refl)
      ]
