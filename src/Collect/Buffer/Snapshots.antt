-- ===== src/Collect/Buffer/Snapshots.antt =====
-- What Snapshot of internal/collect/buffer.go puts into a batch.
use omnistat.Prelude.{
  Bool, true, false, Bytes, bytes_eq, bytes_lt, bytes_eq_iff, bytes_Eq, Map, Unique, lookup, insert,
  insert_sorted, sort, lookup-insert, List, [], ◌∷◌, ◌++◌, append-nil, append_assoc, none, some,
  ◌≡◌, refl, sym, ◌∙◌, ◌||◌, arith, ◌==◌, if◌then◌else◌, Bool-cases, inl, inr, All, length,
}
use omnistat.Manifest.{contains}
use omnistat.Collect.Sample.{Sample, Batch}
use omnistat.Collect.Buffer.{Queue, Buffer, or_empty, queue_of, pending_slugs, gather, snapshot}

contains-insert_sorted :
    (j x : Bytes) (ys : List Bytes)
    → contains j (insert_sorted bytes_lt x ys) ≡ (bytes_eq x j || contains j ys)
unfolding contains insert_sorted
contains-insert_sorted j x [] = ground arith
contains-insert_sorted j x (y ∷ ys) = ground (arith, contains-insert_sorted j x ys)

contains-sort : (j : Bytes) (xs : List Bytes) → contains j (sort bytes_lt xs) ≡ contains j xs
unfolding contains sort
contains-sort j [] = refl
contains-sort j (x ∷ xs) =
    contains-insert_sorted j x (sort bytes_lt xs) ∙ ground (arith, contains-sort j xs)

has_items : Queue → Bool
has_items q = elim q.items [ [] ↦ false | _ ∷ _ ↦ true ]

contains-pending_slugs :
    (j : Bytes) (m : Map Bytes Queue)
    → Unique m
    → contains j (pending_slugs m) ≡ has_items (or_empty (lookup j m))
unfolding contains pending_slugs lookup has_items
contains-pending_slugs j [] u = refl
contains-pending_slugs j ((k, q) ∷ m) u =
    ground (arith, contains-pending_slugs j m u.1, bytes_eq_iff k j, u.0)

start-gather :
    (b : Buffer) (slugs : List Bytes) (out : Batch) (j : Bytes)
    → lookup j (gather b slugs out).start
      ≡ (if contains j slugs then some (queue_of b j).removed else lookup j out.start)
unfolding gather contains
start-gather b [] out j = refl
start-gather b (k ∷ slugs) out j =
    let q = queue_of b k in
    start-gather b slugs
      (record out { metrics = out.metrics ++ q.items; start = insert k q.removed out.start }) j
    ∙ ground (arith, lookup-insert k j q.removed out.start, bytes_eq_iff k j)

-- The start index of a metric is recorded exactly when something of it is pending.
pub start-snapshot :
    (b : Buffer) (j : Bytes)
    → Unique b.metrics
    → lookup j (snapshot b).start
      ≡ (if length (queue_of b j).items == 0 then none else some (queue_of b j).removed)
unfolding snapshot queue_of has_items lookup
start-snapshot b j u =
    start-gather b (sort bytes_lt (pending_slugs b.metrics)) _ j
    ∙ ground
        (arith, contains-sort j (pending_slugs b.metrics), contains-pending_slugs j b.metrics u)

-- The samples of one metric, in order.
unfoldable pub of_slug : Bytes → List Sample → List Sample
of_slug j [] = []
of_slug j (s ∷ ss) = if bytes_eq s.slug j then s ∷ of_slug j ss else of_slug j ss

of_slug-append :
    (j : Bytes) (xs ys : List Sample) → of_slug j (xs ++ ys) ≡ of_slug j xs ++ of_slug j ys
unfolding of_slug
of_slug-append j [] ys = refl
of_slug-append j (x ∷ xs) ys = ground (arith, of_slug-append j xs ys)

of_slug_same : (j : Bytes) (xs : List Sample) → All (λ s. s.slug ≡ j) xs → of_slug j xs ≡ xs
unfolding of_slug
of_slug_same j [] h = refl
of_slug_same j (x ∷ xs) h = ground (arith, of_slug_same j xs h.1, bytes_eq_iff x.slug j)

of_slug_other :
    (j k : Bytes) (xs : List Sample)
    → bytes_eq k j ≡ false
    → All (λ s. s.slug ≡ k) xs
    → of_slug j xs ≡ []
unfolding of_slug
of_slug_other j k [] n h = refl
of_slug_other j k (x ∷ xs) n h =
    ground (arith, of_slug_other j k xs n h.1, bytes_eq_iff x.slug j, bytes_eq_iff k j)

-- `items` once for each occurrence of `j`.
copies : Bytes → List Bytes → List Sample → List Sample
copies j [] items = []
copies j (k ∷ ks) items = if bytes_eq k j then items ++ copies j ks items else copies j ks items

copies-insert_sorted :
    (j x : Bytes) (ys : List Bytes) (items : List Sample)
    → copies j (insert_sorted bytes_lt x ys) items ≡ copies j (x ∷ ys) items
unfolding copies insert_sorted
copies-insert_sorted j x [] items = refl
copies-insert_sorted j x (y ∷ ys) items = ground (arith, copies-insert_sorted j x ys items)

copies-sort :
    (j : Bytes) (xs : List Bytes) (items : List Sample)
    → copies j (sort bytes_lt xs) items ≡ copies j xs items
unfolding copies sort
copies-sort j [] items = refl
copies-sort j (x ∷ xs) items =
    copies-insert_sorted j x (sort bytes_lt xs) items ∙ ground (arith, copies-sort j xs items)

copies-pending_slugs :
    (j : Bytes) (m : Map Bytes Queue) (items : List Sample)
    → Unique m
    → copies j (pending_slugs m) items
      ≡ (if length (or_empty (lookup j m)).items == 0 then [] else items)
unfolding copies pending_slugs lookup
copies-pending_slugs j [] items u = refl
copies-pending_slugs j ((k, q) ∷ m) items u =
    ground (arith, copies-pending_slugs j m items u.1, bytes_eq_iff k j, u.0, append-nil items)

-- Every queue holds samples of its own slug only.
abbrev pub SlugKeyed : Buffer → Type 0
SlugKeyed b = (k : Bytes) → All (λ s. s.slug ≡ k) (queue_of b k).items

of_slug-items :
    (b : Buffer) (j k : Bytes)
    → SlugKeyed b
    → of_slug j (queue_of b k).items ≡ (if bytes_eq k j then (queue_of b j).items else [])
of_slug-items b j k h = elim (Bool-cases (bytes_eq k j)) [
  | inl same ↦
      let e : k ≡ j = (bytes_eq_iff k j).0 same in
      rw (same, e) (of_slug_same j (queue_of b j).items (h j))
  | inr other ↦ rw other (of_slug_other j k (queue_of b k).items other (h k))
]

metrics-gather :
    (b : Buffer) (slugs : List Bytes) (out : Batch) (j : Bytes)
    → SlugKeyed b
    → of_slug j (gather b slugs out).metrics
      ≡ of_slug j out.metrics ++ copies j slugs (queue_of b j).items
unfolding gather copies
metrics-gather b [] out j h = sym (append-nil (of_slug j out.metrics))
metrics-gather b (k ∷ slugs) out j h =
    let q = queue_of b k in
    metrics-gather b slugs
      (record out { metrics = out.metrics ++ q.items; start = insert k q.removed out.start }) j h
    ∙ rw (of_slug-append, of_slug-items b j k h)
        (elim (Bool-cases (bytes_eq k j)) [
          | inl same ↦ rw (same, append_assoc)
          | inr other ↦ rw (other, append-nil)
        ])

items_or_nil : (items : List Sample) → (if length items == 0 then [] else items) ≡ items
items_or_nil [] = refl
items_or_nil (s ∷ ss) = ground arith

-- If each metric has one queue, of its own samples, a batch holds, for each metric, exactly the
-- pending samples in order.
pub metrics-snapshot :
    (b : Buffer) (j : Bytes)
    → Unique b.metrics
    → SlugKeyed b
    → of_slug j (snapshot b).metrics ≡ (queue_of b j).items
unfolding snapshot of_slug
metrics-snapshot b j u h =
    metrics-gather b (sort bytes_lt (pending_slugs b.metrics)) _ j h
    ∙ copies-sort j (pending_slugs b.metrics) (queue_of b j).items
    ∙ copies-pending_slugs j b.metrics (queue_of b j).items u
    ∙ unfold queue_of in items_or_nil (queue_of b j).items
