-- ===== src/Schema/Diff/Bound.antt =====
-- internal/schema/diff.go: which templates an attribute is bound to, and lists of strings as sets.
use omnistat.Prelude.{
  Bool, false, ◌||◌, ◌&&◌, Bytes, bytes_eq, bytes_eq_iff, bytes_lt, bytes_Eq, Map, lookup,
  lookup-insert, insert, List, [], ◌∷◌, ◌++◌, ◌≡◌, refl, ◌∙◌, arith, insert_sorted, sort,
}
use omnistat.Manifest.{contains}
use omnistat.Schema.Types.{CurrentTemplate, CurrentAttribute, Current}
use omnistat.Schema.Diff.{or_nothing, add_bound, bound_to}

pub contains-append :
    (x : Bytes) (xs ys : List Bytes) → contains x (xs ++ ys) ≡ (contains x xs || contains x ys)
unfolding contains
contains-append x [] ys = refl
contains-append x (z ∷ xs) ys = ground (arith, contains-append x xs ys)

contains-insert_sorted :
    (lt : Bytes → Bytes → Bool) (x y : Bytes) (xs : List Bytes)
    → contains x (insert_sorted lt y xs) ≡ (bytes_eq y x || contains x xs)
unfolding contains insert_sorted
contains-insert_sorted lt x y [] = ground arith
contains-insert_sorted lt x y (z ∷ xs) = ground (arith, contains-insert_sorted lt x y xs)

pub contains-sort :
    (lt : Bytes → Bytes → Bool) (x : Bytes) (xs : List Bytes)
    → contains x (sort lt xs) ≡ contains x xs
unfolding contains sort
contains-sort lt x [] = refl
contains-sort lt x (y ∷ xs) =
    ground (arith, contains-insert_sorted lt x y (sort lt xs), contains-sort lt x xs)

-- Some template with the id lists the attribute.
unfoldable pub bound_by : Map Bytes CurrentTemplate → Bytes → Bytes → Bool
bound_by [] attribute template = false
bound_by ((slug, t) ∷ ts) attribute template =
    (bytes_eq t.id template && contains attribute t.attribute_ids) || bound_by ts attribute template

add_bound_lem :
    (a t id : Bytes) (attributes : List Bytes) (m : Map Bytes (List Bytes))
    → contains t (or_nothing (lookup a (add_bound id attributes m)))
      ≡ (contains t (or_nothing (lookup a m)) || (bytes_eq id t && contains a attributes))
unfolding add_bound contains
add_bound_lem a t id [] m = ground arith
add_bound_lem a t id (b ∷ rest) m = ground (
  arith,
  add_bound_lem a t id rest (insert b (or_nothing (lookup b m) ++ id ∷ []) m),
  lookup-insert b a (or_nothing (lookup b m) ++ id ∷ []) m,
  contains-append t (or_nothing (lookup b m)) (id ∷ []),
  bytes_eq_iff b a,
)

pub bound_to_lem :
    (a t : Bytes) (ts : Map Bytes CurrentTemplate) (m : Map Bytes (List Bytes))
    → contains t (or_nothing (lookup a (bound_to ts m)))
      ≡ (contains t (or_nothing (lookup a m)) || bound_by ts a t)
unfolding bound_to bound_by
bound_to_lem a t [] m = ground arith
bound_to_lem a t ((slug, tpl) ∷ ts) m = ground (
  arith,
  bound_to_lem a t ts (add_bound tpl.id tpl.attribute_ids m),
  add_bound_lem a t tpl.id tpl.attribute_ids m,
)

-- The ids that the attribute is bound to, as the loop over the attributes reads them.
abbrev pub ids_bound : Current → CurrentAttribute → List Bytes
ids_bound cur existing = sort bytes_lt (or_nothing (lookup existing.id (bound_to cur.templates [])))

pub contains-ids_bound :
    (cur : Current) (existing : CurrentAttribute) (id : Bytes)
    → contains id (ids_bound cur existing) ≡ bound_by cur.templates existing.id id
contains-ids_bound cur existing id =
    contains-sort bytes_lt id (or_nothing (lookup existing.id (bound_to cur.templates [])))
    ∙ (bound_to_lem existing.id id cur.templates [] ∙ (unfold lookup contains in refl))
