-- ===== src/Collect/Buffers/Cap.antt =====
-- internal/collect/buffers.go: how many entities a module feeds.
use omnistat.Prelude.{
  ℕ, suc, ◌+◌, ◌≤◌, Bytes, bytes_eq, bytes_eq_iff, bytes_Eq, Map, lookup, lookup-insert, insert,
  List, [], ◌∷◌, none, some, ◌≡◌, refl, arith, Bool-cases, Option-cases, inl, inr, if◌then◌else◌,
}
use omnistat.Collect.Sample.{Target, target_Eq, target_eq_iff, is_host, Sample}
use omnistat.Collect.Buffer.{Buffer, new_buffer, add as buffer_add}
use omnistat.Collect.Buffers.{Buffers, new_buffers, keys_of, add, add_new, max_keys_per_module}

-- The targets of a module that have a buffer.
unfoldable pub of_module : Bytes → Map Target Buffer → ℕ
of_module name [] = 0
of_module name ((t, b) ∷ m) =
    let rest = of_module name m in if bytes_eq t.module_name name then suc rest else rest

unfoldable pub add_each : Buffers → List Sample → Buffers
add_each b [] = b
add_each b (s ∷ ss) = add_each (add b s) ss

of_module-insert :
    (name : Bytes) (t : Target) (buf : Buffer) (m : Map Target Buffer)
    → of_module name (insert t buf m) ≡ elim (lookup t m) [
      | some _ ↦ of_module name m
      | none ↦ of_module name m + (if bytes_eq t.module_name name then 1 else 0)
    ]
unfolding of_module insert lookup
of_module-insert name t buf [] = ground arith
of_module-insert name t buf ((u, b) ∷ m) =
    ground (arith, of_module-insert name t buf m, target_eq_iff u t)

-- The counter of a module counts its targets, and is at most the bound.
pub record Counted (b : Buffers) : Type 0 where
  pub exact : (name : Bytes) → of_module name b.targets ≡ keys_of b name
  pub bounded : (name : Bytes) → keys_of b name ≤ max_keys_per_module

add_new-Counted :
    (b : Buffers) (s : Sample)
    → lookup s.target b.targets ≡ none
    → Counted b
    → Counted (add_new b s)
unfolding add_new
add_new-Counted b s e c = record {
  exact = λ name. ground (
    arith,
    e,
    c.exact name,
    of_module-insert name s.target (buffer_add (new_buffer b.max) s) b.targets,
    lookup-insert s.target.module_name name (keys_of b s.target.module_name + 1) b.keys,
    bytes_eq_iff s.target.module_name name,
  );
  bounded = λ name. ground (
    arith,
    c.bounded name,
    lookup-insert s.target.module_name name (keys_of b s.target.module_name + 1) b.keys,
    bytes_eq_iff s.target.module_name name,
  );
}

add-Counted : (b : Buffers) (s : Sample) → Counted b → Counted (add b s)
unfolding add
add-Counted b s c = elim (Bool-cases (is_host s.target)) [
  | inl h ↦ rw (h, add) (record { exact = c.exact; bounded = c.bounded })
  | inr h ↦ elim (Option-cases (lookup s.target b.targets)) [
    | inl e ↦ rw (h, e, add) (add_new-Counted b s e c)
    | inr (buf, e) ↦
        rw (h, e, add)
          (record {
            exact = λ name. ground (
              arith,
              e,
              c.exact name,
              of_module-insert name s.target (buffer_add buf s) b.targets,
            );
            bounded = c.bounded;
          })
  ]
]

new_buffers-Counted : (max : ℕ) → Counted (new_buffers max)
unfolding new_buffers of_module lookup
new_buffers-Counted max = record { exact = λ name. refl; bounded = λ name. omega arith }

add_each-Counted : (b : Buffers) (ss : List Sample) → Counted b → Counted (add_each b ss)
unfolding add_each
add_each-Counted b [] c = c
add_each-Counted b (s ∷ ss) c = add_each-Counted (add b s) ss (add-Counted b s c)

-- Whatever samples are added, no module has more than 256 entities with a buffer.
pub of_module-add_each :
    (max : ℕ) (ss : List Sample) (name : Bytes)
    → of_module name (add_each (new_buffers max) ss).targets ≤ max_keys_per_module
of_module-add_each max ss name =
    let c = add_each-Counted (new_buffers max) ss (new_buffers-Counted max) in
    omega (arith, c.exact name, c.bounded name)
