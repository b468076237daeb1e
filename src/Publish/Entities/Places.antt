-- ===== src/Publish/Entities/Places.antt =====
-- internal/publish/entities.go: the places of the entities in the order of a publish.
use omnistat.Prelude.{
  ap, ◌++◌, insert_sorted, sort, false, bytes_Eq, lookup, Map, List, [], ◌∷◌, some, ◌≡◌, ◌⊎◌, inl,
  inr, arith, Bool-cases,
}
use omnistat.Collect.Sample.{Target, target_Eq, target_eq, target_eq_iff}
use omnistat.Collect.Buffer.{Buffer}
use omnistat.Collect.Buffers.{Buffers, targets, target_keys, target_lt}

-- A target is in a list, at some place.
abbrev pub Listed : List Target → Target → Type 0
Listed ts u = (xs : List Target) × (ys : List Target) × (ts ≡ xs ++ u ∷ ys)

Listed-cons : (t u : Target) (ts : List Target) → Listed ts u → Listed (t ∷ ts) u
Listed-cons t u ts (xs, ys, e) = (t ∷ xs, ys, ap (λ z. t ∷ z) e)

pub Listed-tail :
    (t u : Target) (ts : List Target) → target_eq t u ≡ false → Listed (t ∷ ts) u → Listed ts u
Listed-tail t u ts other ([], ys, e) =
    let same : t ≡ u = ground (arith, e) in
    absurd (ground (arith, other, (target_eq_iff t u).1 same))
Listed-tail t u ts other (x ∷ xs, ys, e) = (xs, ys, ground (arith, e))

Listed-insert_sorted :
    (t u : Target) (ts : List Target)
    → (t ≡ u) ⊎ Listed ts u
    → Listed (insert_sorted target_lt t ts) u
unfolding insert_sorted
Listed-insert_sorted t u [] (inl same) = ([], [], ap (λ z. z ∷ []) same)
Listed-insert_sorted t u [] (inr ([], ys, e)) = cc
Listed-insert_sorted t u [] (inr (x ∷ xs, ys, e)) = cc
Listed-insert_sorted t u (v ∷ ts) h = elim (Bool-cases (target_lt v t)) [
  | inr e ↦
      rw (e, insert_sorted)
        (elim h [
          | inl same ↦ ([], v ∷ ts, ap (λ z. z ∷ v ∷ ts) same)
          | inr l ↦ Listed-cons t u (v ∷ ts) l
        ])
  | inl e ↦
      rw (e, insert_sorted)
        (elim (Bool-cases (target_eq v u)) [
          | inl y ↦ (
            [],
            insert_sorted target_lt t ts,
            ap (λ z. z ∷ insert_sorted target_lt t ts) ((target_eq_iff v u).0 y),
          )
          | inr n ↦ Listed-cons v u (insert_sorted target_lt t ts) (
              Listed-insert_sorted t u ts
                (elim h [ inl same ↦ inl same | inr l ↦ inr (Listed-tail v u ts n l) ]))
        ])
]

-- A target with a buffer is among the targets.
Listed-sorted :
    (m : Map Target Buffer) (u : Target) (buf : Buffer)
    → lookup u m ≡ some buf
    → Listed (sort target_lt (target_keys m)) u
unfolding sort target_keys lookup
Listed-sorted [] u buf h = cc
Listed-sorted ((t, b) ∷ m) u buf h = elim (Bool-cases (target_eq t u)) [
  | inl y ↦
      Listed-insert_sorted t u (sort target_lt (target_keys m)) (inl ((target_eq_iff t u).0 y))
  | inr n ↦
      Listed-insert_sorted t u (sort target_lt (target_keys m))
        (inr (Listed-sorted m u buf (ground (arith, n, h))))
]

pub targets-Listed :
    (b : Buffers) (u : Target) (buf : Buffer) → lookup u b.targets ≡ some buf → Listed (targets b) u
unfolding targets
targets-Listed b u buf h = Listed-sorted b.targets u buf h
