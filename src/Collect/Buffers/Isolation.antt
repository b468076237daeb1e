-- ===== src/Collect/Buffers/Isolation.antt =====
-- internal/collect/buffers.go: where the samples of one entity go.
use omnistat.Prelude.{
  ◌+◌, ◌≤◌, true, false, ◌⊎◌, inl, inr, Bytes, bytes_Eq, lookup, lookup-insert, bytes_eq_iff, List,
  [], ◌∷◌, none, some, ◌≡◌, refl, sym, subst, ◌∙◌, arith, tests, leb, Bool-cases, Option-cases,
  if◌then◌else◌,
}
use omnistat.Collect.Sample.{Target, target_Eq, target_eq, target_eq_iff, is_host, Sample}
use omnistat.Collect.Buffer.{Buffer, new_buffer, add as buffer_add}
use omnistat.Collect.Buffer.Sound.{add_all}
use omnistat.Collect.Buffers.{Buffers, keys_of, add, add_new, max_keys_per_module}
use omnistat.Collect.Buffers.Cap.{add_each}

-- The samples of one target.
unfoldable pub only : Target → List Sample → List Sample
only t [] = []
only t (s ∷ ss) = let rest = only t ss in if target_eq s.target t then s ∷ rest else rest

-- A sample of another entity.
add-other :
    (b : Buffers) (s : Sample) (t : Target)
    → target_eq s.target t ≡ false
    → lookup t (add b s).targets ≡ lookup t b.targets
unfolding add add_new
add-other b s t k = elim (Option-cases (lookup s.target b.targets)) [
  | inl e ↦
      ground (arith, e, k, lookup-insert s.target t (buffer_add (new_buffer b.max) s) b.targets)
  | inr (buf, e) ↦ ground (arith, e, k, lookup-insert s.target t (buffer_add buf s) b.targets)
]

-- The buffer of a target after one more sample, when it has one.
add-some :
    (b : Buffers) (s : Sample) (t : Target) (buf : Buffer)
    → is_host t ≡ false
    → lookup t b.targets ≡ some buf
    → lookup t (add b s).targets ≡ some (if target_eq s.target t then buffer_add buf s else buf)
unfolding add
add-some b s t buf h e =
    let same = target_eq_iff s.target t in
    elim (Bool-cases (target_eq s.target t)) [
      | inl k ↦
          let st = same.0 k in
          let e' = subst (λ x. lookup x b.targets ≡ some buf) (sym st) e in
          let h' = subst (λ x. is_host x ≡ false) (sym st) h in
          rw (h', e', k, add) (lookup-insert s.target t (buffer_add buf s) b.targets ∙ (rw k refl))
      | inr k ↦ add-other b s t k ∙ (e ∙ (rw k refl))
    ]

-- The buffer of an entity other than the host becomes that of its own samples, whatever else is
-- added.
add_each-some :
    (b : Buffers) (ss : List Sample) (t : Target) (buf : Buffer)
    → is_host t ≡ false
    → lookup t b.targets ≡ some buf
    → lookup t (add_each b ss).targets ≡ some (add_all buf (only t ss))
unfolding add_each add_all only
add_each-some b [] t buf h e = e
add_each-some b (s ∷ ss) t buf h e =
    let ih =
      add_each-some (add b s) ss t (if target_eq s.target t then buffer_add buf s else buf) h
        (add-some b s t buf h e) in
    elim (Bool-cases (target_eq s.target t)) [
      | inl k ↦ ih ∙ (rw (k, only, add_all) refl)
      | inr k ↦ ih ∙ (rw (k, only) refl)
    ]

-- A target without a buffer: it stays without one if it has no sample or its module is at the
-- bound, and otherwise starts with its first sample.
add-none :
    (b : Buffers) (s : Sample) (t : Target)
    → is_host t ≡ false
    → lookup t b.targets ≡ none
    → target_eq s.target t ≡ true
    → ((lookup t (add b s).targets ≡ none)
        × (max_keys_per_module ≤ keys_of (add b s) t.module_name))
      ⊎ (lookup t (add b s).targets ≡ some (buffer_add (new_buffer b.max) s))
unfolding add add_new
add-none b s t h e k =
    let st = (target_eq_iff s.target t).0 k in
    let e' = subst (λ x. lookup x b.targets ≡ none) (sym st) e in
    let h' = subst (λ x. is_host x ≡ false) (sym st) h in
    elim (Bool-cases (leb max_keys_per_module (keys_of b s.target.module_name))) [
      | inl full ↦ inl (
          rw (h', e', full, add, add_new)
            (
              e,
              subst (λ x. max_keys_per_module ≤ keys_of b x.module_name) st (omega (tests, full)),
            ))
      | inr room ↦
          inr (rw (h', e', room, add, add_new) (lookup-insert s.target t _ b.targets ∙ (rw k refl)))
    ]

keys_of-add : (b : Buffers) (s : Sample) (name : Bytes) → keys_of b name ≤ keys_of (add b s) name
unfolding add add_new
keys_of-add b s name = ground (
  arith,
  lookup-insert s.target.module_name name (keys_of b s.target.module_name + 1) b.keys,
  bytes_eq_iff s.target.module_name name,
)

keys_of-add_each :
    (b : Buffers) (ss : List Sample) (name : Bytes) → keys_of b name ≤ keys_of (add_each b ss) name
unfolding add_each
keys_of-add_each b [] name = omega arith
keys_of-add_each b (s ∷ ss) name =
    omega (arith, keys_of-add b s name, keys_of-add_each (add b s) ss name)

max-add : (b : Buffers) (s : Sample) → (add b s).max ≡ b.max
unfolding add add_new
max-add b s = ground arith

-- At the bound a target without a buffer gets none.
full_lem :
    (b : Buffers) (s : Sample) (t : Target)
    → is_host t ≡ false
    → lookup t b.targets ≡ none
    → max_keys_per_module ≤ keys_of b t.module_name
    → lookup t (add b s).targets ≡ none
unfolding add add_new
full_lem b s t h e full = elim (Bool-cases (target_eq s.target t)) [
  | inr k ↦ add-other b s t k ∙ e
  | inl k ↦
      let st = (target_eq_iff s.target t).0 k in
      let e' = subst (λ x. lookup x b.targets ≡ none) (sym st) e in
      let h' = subst (λ x. is_host x ≡ false) (sym st) h in
      let full' = subst (λ x. max_keys_per_module ≤ keys_of b x.module_name) (sym st) full in
      ground (arith, e, e', h', full')
]

full_stays :
    (b : Buffers) (ss : List Sample) (t : Target)
    → is_host t ≡ false
    → lookup t b.targets ≡ none
    → max_keys_per_module ≤ keys_of b t.module_name
    → lookup t (add_each b ss).targets ≡ none
unfolding add_each
full_stays b [] t h e full = e
full_stays b (s ∷ ss) t h e full =
    full_stays (add b s) ss t h (full_lem b s t h e full)
      (omega (arith, full, keys_of-add b s t.module_name))

-- Whatever is added, an entity other than the host that has no buffer ends up with none, having no
-- samples or a module at the cap, or with the buffer of exactly its own samples.
pub add_each-none :
    (b : Buffers) (ss : List Sample) (t : Target)
    → is_host t ≡ false
    → lookup t b.targets ≡ none
    → ((lookup t (add_each b ss).targets ≡ none)
        × ((only t ss ≡ []) ⊎ (max_keys_per_module ≤ keys_of (add_each b ss) t.module_name)))
      ⊎ (lookup t (add_each b ss).targets ≡ some (add_all (new_buffer b.max) (only t ss)))
unfolding add_each only
add_each-none b [] t h e = inl (e, inl refl)
add_each-none b (s ∷ ss) t h e = elim (Bool-cases (target_eq s.target t)) [
  | inr k ↦
      let ih = add_each-none (add b s) ss t h (add-other b s t k ∙ e) in
      rw (k, only)
        (subst
          (λ m.
            ((lookup t (add_each (add b s) ss).targets ≡ none)
              × ((only t ss ≡ [])
                  ⊎ (max_keys_per_module ≤ keys_of (add_each (add b s) ss) t.module_name)))
            ⊎ (lookup t (add_each (add b s) ss).targets
                ≡ some (add_all (new_buffer m) (only t ss))))
          (max-add b s) ih)
  | inl k ↦ elim (add-none b s t h e k) [
    | inr here ↦ inr (
        add_each-some (add b s) ss t (buffer_add (new_buffer b.max) s) h here
        ∙ (rw (k, only) (unfold add_all in refl)))
    | inl (gone, full) ↦ inl (
      full_stays (add b s) ss t h gone full,
      inr (omega (arith, full, keys_of-add_each (add b s) ss t.module_name)),
    )
  ]
]
