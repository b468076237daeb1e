-- ===== src/Collect/Observe/Addressed.antt =====
-- internal/collect/scheduler.go: what a collection adds to the buffers, and what it drops.
use omnistat.Prelude.{
  ℕ, true, false, bytes_eq, bytes_Eq, bytes_eq_iff, lookup, List, [], ◌∷◌, ◌≡◌, ◌↔◌, ◌⊎◌, inl, inr,
  refl, subst, arith, Bool-cases, Option-cases,
}
use omnistat.Settle.{Result, Result-cases, ok, err}
use omnistat.Manifest.{DesiredAttribute}
use omnistat.Identity.Keys.{valid_key}
use omnistat.Collect.Sample.{Target, target_eq_iff, host, is_host, Sample}
use omnistat.Collect.Buffers.{Buffers, add}
use omnistat.Collect.Buffers.Cap.{add_each}
use omnistat.Collect.Validate.{validate}
use omnistat.Collect.Validate.Renders.{validate-Canonical}
use omnistat.Collect.Observe.{
  Observation, Entity, Source, TargetError, no_entity, other_template, Dropped, is_host_entity,
  target_of, is_set, with_value, with_target, observe, observe_all,
}
use omnistat.Collect.Observe.Collected.{
  IsBlank, entity_target, Placed, Declared, From, Misplaced, Refused, Collected, all_seen, dropped,
  added,
}

is_host_entity_iff : (e : Entity) → (is_host_entity e ≡ true) ↔ IsBlank e
unfolding is_host_entity
is_host_entity_iff e = (
  λ h. ground (arith, bytes_eq_iff e.template [], bytes_eq_iff e.key []),
  λ h. ground (arith, bytes_eq_iff e.template [], bytes_eq_iff e.key []),
)

not-IsBlank : (e : Entity) → is_host_entity e ≡ false → ¬ IsBlank e
not-IsBlank e h b = ground (arith, h, (is_host_entity_iff e).1 b)

-- The entity is the host's, or its key is yet to be checked.
abbrev Aimed : Source → DesiredAttribute → Entity → Target → Type 0
Aimed src attr e t =
    (IsBlank e × (attr.entity_template ≡ []) × (t ≡ host))
    ⊎ ((¬ IsBlank e) × (e.template ≡ attr.entity_template) × (t ≡ entity_target src e))

target_of-Aimed :
    (src : Source) (attr : DesiredAttribute) (e : Entity) (t : Target)
    → target_of src attr e ≡ ok t
    → Aimed src attr e t
unfolding target_of
target_of-Aimed src attr e t h = elim (Bool-cases (is_host_entity e)) [
  | inl k ↦ elim (Bool-cases (bytes_eq attr.entity_template [])) [
    | inl l ↦ inl (
      (is_host_entity_iff e).0 k,
      (bytes_eq_iff attr.entity_template []).0 l,
      ground (arith, h, k, l),
    )
    | inr l ↦ absurd (ground (arith, h, k, l))
  ]
  | inr k ↦ elim (Bool-cases (bytes_eq e.template attr.entity_template)) [
    | inl l ↦ inr (
      not-IsBlank e k,
      (bytes_eq_iff e.template attr.entity_template).0 l,
      ground (arith, h, k, l),
    )
    | inr l ↦ absurd (ground (arith, h, k, l))
  ]
]

target_of-Misplaced :
    (src : Source) (attr : DesiredAttribute) (e : Entity) (z : TargetError)
    → target_of src attr e ≡ err z
    → Misplaced attr e z
unfolding target_of
target_of-Misplaced src attr e z h = elim (Bool-cases (is_host_entity e)) [
  | inl k ↦ elim (Bool-cases (bytes_eq attr.entity_template [])) [
    | inl l ↦ absurd (ground (arith, h, k, l))
    | inr l ↦
        let same : no_entity ≡ z = ground (arith, h, k, l) in
        subst (Misplaced attr e) same (
          (is_host_entity_iff e).0 k,
          λ q. absurd (ground (arith, l, (bytes_eq_iff attr.entity_template []).1 q)),
        )
  ]
  | inr k ↦ elim (Bool-cases (bytes_eq e.template attr.entity_template)) [
    | inl l ↦ absurd (ground (arith, h, k, l))
    | inr l ↦
        let same : other_template e.template attr.entity_template ≡ z = ground (arith, h, k, l) in
        subst (Misplaced attr e) same (
          not-IsBlank e k,
          λ q. absurd (ground (arith, l, (bytes_eq_iff e.template attr.entity_template).1 q)),
          refl,
          refl,
        )
  ]
]

-- What observe returns is right.
abbrev Right : Source → ℕ → Observation → Result Dropped Sample → Type 0
Right src at o (ok s) = From src at o s
Right src at o (err d) = Refused src o d

module _ (src : Source) (at : ℕ) (o : Observation) (attr : DesiredAttribute)
    (declared : Declared src o.key attr) where
  with_value-Right :
      (t : Target) → Placed src attr o.entity t → Right src at o (with_value src at o attr t)
  unfolding with_value
  with_value-Right t placed = elim (Result-cases (validate attr o.value)) [
    | inl (e, k) ↦ rw (k, with_value) (attr, declared, k)
    | inr (v, k) ↦
        rw (k, with_value)
          (record {
            attr = attr;
            declared = declared;
            key_same = refl;
            slug_same = refl;
            kind_same = refl;
            module_same = refl;
            at_same = refl;
            checked = k;
            canonical = validate-Canonical attr o.value v k;
            placed = placed;
          })
  ]

  with_target-Right : Right src at o (with_target src at o attr)
  unfolding with_target
  with_target-Right = elim (Result-cases (target_of src attr o.entity)) [
    | inl (e, k) ↦ rw (k, with_target) (attr, declared, target_of-Misplaced src attr o.entity e k)
    | inr (t, k) ↦ elim (target_of-Aimed src attr o.entity t k) [
      | inl (blank, bare, at_host) ↦
          let hosted : is_host t ≡ true = unfold is_host in (target_eq_iff t host).1 at_host in
          rw (k, hosted, with_target) (with_value-Right t (inl (blank, bare, at_host)))
      | inr (named, own, same) ↦ elim (Bool-cases (is_host t)) [
        | inl l ↦
            rw (k, l, with_target)
              (with_value-Right t
                (inr (named, own, same, inl ((target_eq_iff t host).0 (unfold is_host in l)))))
        | inr l ↦ elim (Option-cases (valid_key t.key)) [
          | inr (e, m) ↦ rw (k, l, m, with_target) (attr, declared, ground (arith, m, same))
          | inl m ↦
              rw (k, l, m, with_target)
                (with_value-Right t (inr (named, own, same, inr (ground (arith, m, same)))))
        ]
      ]
    ]
  ]

observe-Right : (src : Source) (at : ℕ) (o : Observation) → Right src at o (observe src at o)
unfolding observe
observe-Right src at o = elim (Bool-cases (is_set (lookup o.key src.links))) [
  | inl k ↦ rw (k, observe) k
  | inr k ↦ elim (Option-cases (lookup o.key src.attrs)) [
    | inl l ↦ elim (Bool-cases (is_set (lookup o.key src.unsupported))) [
      | inl m ↦ rw (k, l, m, observe) (k, l, m)
      | inr m ↦ rw (k, l, m, observe) (k, l, m)
    ]
    | inr (attr, l) ↦
        rw (k, l, observe) (with_target-Right src at o attr (record { found = l; no_link = k }))
  ]
]

-- Each observation of a collection is, in its order, either dropped for a fault that it has, or
-- added as the next sample: of the attribute that its key declares and that is no host link, with
-- its value as Validate accepts it, canonical, taken at the instant, for the host or for its own
-- entity, whose key is valid unless it comes out as the host.
pub observe_all-Collected :
    (src : Source) (at : ℕ) (os : List Observation) (b : Buffers)
    → (ss : List Sample) × Collected src at os (observe_all src at os b).0 ss
      × ((observe_all src at os b).1 ≡ add_each b ss)
unfolding observe_all add_each
observe_all-Collected src at [] b = ([], all_seen, refl)
observe_all-Collected src at (o ∷ os) b =
    let right = observe-Right src at o in
    elim (Result-cases (observe src at o)) [
      | inl (d, h) ↦
          let (ss, c, e) = observe_all-Collected src at os b in
          rw (h, observe_all) (ss, dropped (subst (Right src at o) h right) c, e)
      | inr (s, h) ↦
          let (ss, c, e) = observe_all-Collected src at os (add b s) in
          rw (h, observe_all) (s ∷ ss, added (subst (Right src at o) h right) c, e)
    ]
