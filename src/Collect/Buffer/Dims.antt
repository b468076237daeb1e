-- ===== src/Collect/Buffer/Dims.antt =====
-- The dimensions of internal/collect/buffer.go: the latest sample of each, what a batch sends of
-- them, and which an acknowledgement forgets.
use omnistat.Prelude.{
  ℕ, Bool, false, not, Bytes, bytes_eq, bytes_lt, bytes_eq_iff, bytes_lt_irrefl, bytes_Eq, Map,
  Unique, lookup, insert, remove, insert_sorted, sort, lookup-insert, lookup-remove, insert-Unique,
  remove-Unique, List, [], ◌∷◌, Option, none, some, ◌≡◌, refl, ◌∙◌, ap, ◌&&◌, arith, ◌==◌,
  if◌then◌else◌, Bool-cases, Option-cases, inl, inr, All,
}
use omnistat.Manifest.{contains}
use omnistat.Collect.Sample.{Sample, Batch, Ack, is_metric}
use omnistat.Collect.Buffer.{
  Buffer, or_zero, values, pending_slugs, slug_lt, add, snapshot, snap_times, ack_dim, ack_dims,
  ack, gather,
}
use omnistat.Collect.Buffer.Snapshots.{of_slug}
use omnistat.Collect.Buffer.Sound.{add_all}

-- Each dimension is stored under the slug of its sample, once.
pub record DimsSound (b : Buffer) : Type 0 where
  pub unique : Unique b.dims
  pub keyed : All (λ p. p.1.slug ≡ p.0) b.dims

pub lookup-add :
    (b : Buffer) (s : Sample) (k : Bytes)
    → lookup k (add b s).dims
      ≡ (if not (is_metric s) && bytes_eq s.slug k then some s else lookup k b.dims)
unfolding add
lookup-add b s k = ground (arith, lookup-insert s.slug k s b.dims)

insert-keyed :
    (k : Bytes) (s : Sample) (m : Map Bytes Sample)
    → s.slug ≡ k
    → All (λ p. p.1.slug ≡ p.0) m
    → All (λ p. p.1.slug ≡ p.0) (insert k s m)
unfolding insert
insert-keyed k s [] e h = (e, tt)
insert-keyed k s ((j, t) ∷ m) e h = elim (Bool-cases (bytes_eq j k)) [
  | inl same ↦ rw same (e, h.1)
  | inr other ↦ rw other (h.0, insert-keyed k s m e h.1)
]

remove-keyed :
    (k : Bytes) (m : Map Bytes Sample)
    → All (λ p. p.1.slug ≡ p.0) m
    → All (λ p. p.1.slug ≡ p.0) (remove k m)
unfolding remove
remove-keyed k [] h = tt
remove-keyed k ((j, t) ∷ m) h = elim (Bool-cases (bytes_eq j k)) [
  | inl same ↦ rw same (remove-keyed k m h.1)
  | inr other ↦ rw other (h.0, remove-keyed k m h.1)
]

pub add-DimsSound : (b : Buffer) (s : Sample) → DimsSound b → DimsSound (add b s)
unfolding add
add-DimsSound b s v = elim (Bool-cases (is_metric s)) [
  | inl m ↦ rw m (record { unique = v.unique; keyed = v.keyed })
  | inr d ↦ rw d (record {
    unique = insert-Unique s.slug s b.dims v.unique;
    keyed = insert-keyed s.slug s b.dims refl v.keyed;
  })
]

-- Whether the sample held now is the one that was sent: the instants agree.
unfoldable pub was_sent : Option Sample → Option ℕ → Bool
was_sent none sent = false
was_sent (some cur) sent = cur.at == or_zero sent

lookup-ack_dim :
    (snap : Map Bytes ℕ) (dims : Map Bytes Sample) (j k : Bytes)
    → lookup k (ack_dim snap dims j)
      ≡ (if bytes_eq j k && was_sent (lookup k dims) (lookup k snap) then none else lookup k dims)
unfolding ack_dim was_sent
lookup-ack_dim snap dims j k = ground (arith, lookup-remove j k dims, bytes_eq_iff j k)

lookup-ack_dims :
    (snap : Map Bytes ℕ) (dims : Map Bytes Sample) (slugs : List Bytes) (k : Bytes)
    → lookup k (ack_dims snap dims slugs) ≡ (
        if contains k slugs && was_sent (lookup k dims) (lookup k snap)
        then none
        else lookup k dims)
unfolding ack_dims contains was_sent
lookup-ack_dims snap dims [] k = refl
lookup-ack_dims snap dims (j ∷ slugs) k =
    lookup-ack_dims snap (ack_dim snap dims j) slugs k
    ∙ ground (arith, lookup-ack_dim snap dims j k)

last_at : List Sample → Option ℕ → Option ℕ
last_at [] d = d
last_at (s ∷ ss) d = last_at ss (some s.at)

lookup-snap_times :
    (ss : List Sample) (m : Map Bytes ℕ) (k : Bytes)
    → lookup k (snap_times ss m) ≡ last_at (of_slug k ss) (lookup k m)
unfolding snap_times last_at of_slug
lookup-snap_times [] m k = refl
lookup-snap_times (s ∷ ss) m k =
    lookup-snap_times ss (insert s.slug s.at m) k ∙ ground (arith, lookup-insert s.slug k s.at m)

-- A sort by slug keeps the samples of one slug in their order.
of_slug-insert_sorted :
    (k : Bytes) (x : Sample) (ys : List Sample)
    → of_slug k (insert_sorted slug_lt x ys) ≡ of_slug k (x ∷ ys)
unfolding of_slug insert_sorted
of_slug-insert_sorted k x [] = refl
of_slug-insert_sorted k x (y ∷ ys) = ground (
  arith,
  of_slug-insert_sorted k x ys,
  bytes_eq_iff x.slug k,
  bytes_eq_iff y.slug k,
  bytes_lt_irrefl k,
)

of_slug-sort : (k : Bytes) (xs : List Sample) → of_slug k (sort slug_lt xs) ≡ of_slug k xs
unfolding sort of_slug
of_slug-sort k [] = refl
of_slug-sort k (x ∷ xs) =
    of_slug-insert_sorted k x (sort slug_lt xs) ∙ ground (arith, of_slug-sort k xs)

abbrev pub singleton : Option Sample → List Sample
singleton none = []
singleton (some s) = s ∷ []

of_slug-values :
    (k : Bytes) (m : Map Bytes Sample)
    → Unique m
    → All (λ p. p.1.slug ≡ p.0) m
    → of_slug k (values m) ≡ singleton (lookup k m)
unfolding of_slug values lookup
of_slug-values k [] u h = refl
of_slug-values k ((j, s) ∷ m) u h =
    ground (arith, of_slug-values k m u.1 h.1, h.0, u.0, bytes_eq_iff j k)

dims-gather : (b : Buffer) (slugs : List Bytes) (out : Batch) → (gather b slugs out).dims ≡ out.dims
unfolding gather
dims-gather b [] out = refl
dims-gather b (k ∷ slugs) out = dims-gather b slugs _

-- A batch holds the buffered sample of each dimension, once.
pub dims-snapshot :
    (b : Buffer) (k : Bytes)
    → DimsSound b
    → of_slug k (snapshot b).dims ≡ singleton (lookup k b.dims)
unfolding snapshot
dims-snapshot b k v =
    ap (of_slug k) (
      dims-gather b (sort bytes_lt (pending_slugs b.metrics))
        (record { dims = sort slug_lt (values b.dims); metrics = []; start = [] }))
    ∙ of_slug-sort k (values b.dims)
    ∙ of_slug-values k b.dims v.unique v.keyed

abbrev pub at_of : Option Sample → Option ℕ
at_of none = none
at_of (some s) = some s.at

last_at-singleton : (o : Option Sample) → last_at (singleton o) none ≡ at_of o
unfolding last_at
last_at-singleton none = refl
last_at-singleton (some s) = refl

lookup-snap_times-snapshot :
    (b : Buffer) (k : Bytes)
    → DimsSound b
    → lookup k (snap_times (snapshot b).dims []) ≡ at_of (lookup k b.dims)
lookup-snap_times-snapshot b k v =
    lookup-snap_times (snapshot b).dims [] k
    ∙ rw (dims-snapshot b k v) (unfold lookup in last_at-singleton (lookup k b.dims))

-- In a buffer that keeps each dimension under its own slug, after a round a dimension is forgotten
-- exactly if it was acknowledged and the buffer still holds a sample of the instant that was sent.
pub dims_round :
    (b : Buffer) (ss : List Sample) (a : Ack) (k : Bytes)
    → DimsSound b
    → lookup k (ack (add_all b ss) (snapshot b) a).dims ≡ (
        if contains k a.dims && was_sent (lookup k (add_all b ss).dims) (at_of (lookup k b.dims))
        then none
        else lookup k (add_all b ss).dims)
unfolding ack
dims_round b ss a k v =
    lookup-ack_dims (snap_times (snapshot b).dims []) (add_all b ss).dims a.dims k
    ∙ rw (lookup-snap_times-snapshot b k v)

ack_dim_sound :
    (snap : Map Bytes ℕ) (dims : Map Bytes Sample) (k : Bytes)
    → Unique dims × All (λ p. p.1.slug ≡ p.0) dims
    → Unique (ack_dim snap dims k) × All (λ p. p.1.slug ≡ p.0) (ack_dim snap dims k)
unfolding ack_dim
ack_dim_sound snap dims k h = elim (Option-cases (lookup k dims)) [
  | inl absent ↦ rw (absent, ack_dim) h
  | inr (cur, found) ↦ elim (Bool-cases (cur.at == or_zero (lookup k snap))) [
    | inl same ↦ rw (found, ack_dim) (rw same (remove-Unique k dims h.0, remove-keyed k dims h.1))
    | inr newer ↦ rw (found, ack_dim) (rw newer h)
  ]
]

ack_dims_sound :
    (snap : Map Bytes ℕ) (dims : Map Bytes Sample) (ks : List Bytes)
    → Unique dims × All (λ p. p.1.slug ≡ p.0) dims
    → Unique (ack_dims snap dims ks) × All (λ p. p.1.slug ≡ p.0) (ack_dims snap dims ks)
unfolding ack_dims
ack_dims_sound snap dims [] h = h
ack_dims_sound snap dims (k ∷ ks) h =
    ack_dims_sound snap (ack_dim snap dims k) ks (ack_dim_sound snap dims k h)

pub ack-DimsSound : (b : Buffer) (batch : Batch) (a : Ack) → DimsSound b → DimsSound (ack b batch a)
unfolding ack
ack-DimsSound b batch a v =
    let h = ack_dims_sound (snap_times batch.dims []) b.dims a.dims (v.unique, v.keyed) in
    record { unique = h.0; keyed = h.1 }
