-- ===== src/Collect/Buffers/Distinct.antt =====
-- internal/collect/buffers.go: the list that Targets returns.
use omnistat.Prelude.{
  false, bytes_Eq, Map, lookup, insert_sorted, sort, Unique, List, [], ◌∷◌, none, ◌≡◌, sym, arith,
  All, All-sort, Bool-cases, inl, inr,
}
use omnistat.Collect.Sample.{Target, target_Eq, target_eq, target_eq_iff}
use omnistat.Collect.Buffer.{Buffer}
use omnistat.Collect.Buffers.{Buffers, targets, target_keys, target_lt}

-- No target is in the list twice.
abbrev pub Distinct : List Target → Type 0
Distinct [] = Unit
Distinct (t ∷ ts) = All (λ u. target_eq t u ≡ false) ts × Distinct ts

target_eq_sym : (t u : Target) → target_eq t u ≡ false → target_eq u t ≡ false
target_eq_sym t u h = elim (Bool-cases (target_eq u t)) [
  | inr e ↦ e
  | inl e ↦ absurd (ground (arith, h, (target_eq_iff t u).1 (sym ((target_eq_iff u t).0 e))))
]

All-insert :
    (P : Target → Type 0) (x : Target) (ts : List Target)
    → P x
    → All P ts
    → All P (insert_sorted target_lt x ts)
unfolding insert_sorted
All-insert P x [] px h = (px, tt)
All-insert P x (t ∷ ts) px h = elim (Bool-cases (target_lt t x)) [
  | inl e ↦ rw (e, insert_sorted) (h.0, All-insert P x ts px h.1)
  | inr e ↦ rw (e, insert_sorted) (px, h)
]

insert_sorted-Distinct :
    (x : Target) (ts : List Target)
    → All (λ u. target_eq x u ≡ false) ts
    → Distinct ts
    → Distinct (insert_sorted target_lt x ts)
unfolding insert_sorted
insert_sorted-Distinct x [] a d = (tt, tt)
insert_sorted-Distinct x (t ∷ ts) a d = elim (Bool-cases (target_lt t x)) [
  | inl e ↦
      rw (e, insert_sorted)
        (
          All-insert (λ u. target_eq t u ≡ false) x ts (target_eq_sym x t a.0) d.0,
          insert_sorted-Distinct x ts a.1 d.1,
        )
  | inr e ↦ rw (e, insert_sorted) (a, d)
]

sort-Distinct : (ts : List Target) → Distinct ts → Distinct (sort target_lt ts)
unfolding sort
sort-Distinct [] d = tt
sort-Distinct (t ∷ ts) d =
    insert_sorted-Distinct t (sort target_lt ts)
      (All-sort target_lt (λ u. target_eq t u ≡ false) ts d.0) (sort-Distinct ts d.1)

pub absent_lem :
    (t : Target) (m : Map Target Buffer)
    → lookup t m ≡ none
    → All (λ u. target_eq t u ≡ false) (target_keys m)
unfolding target_keys lookup
absent_lem t [] h = tt
absent_lem t ((u, b) ∷ m) h = elim (Bool-cases (target_eq u t)) [
  | inl e ↦ absurd (ground (arith, h, e))
  | inr e ↦ (target_eq_sym u t e, absent_lem t m (ground (arith, h, e)))
]

target_keys-Distinct : (m : Map Target Buffer) → Unique m → Distinct (target_keys m)
unfolding target_keys
target_keys-Distinct [] u = tt
target_keys-Distinct ((t, b) ∷ m) u = (absent_lem t m u.0, target_keys-Distinct m u.1)

pub targets-Distinct : (b : Buffers) → Unique b.targets → Distinct (targets b)
unfolding targets
targets-Distinct b u = sort-Distinct (target_keys b.targets) (target_keys-Distinct b.targets u)
