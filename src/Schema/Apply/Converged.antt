-- ===== src/Schema/Apply/Converged.antt =====
-- internal/schema/apply.go: a project that has everything desired, and the ids of what it has.
use omnistat.Prelude.{
  ℕ, Bool, false, Bytes, bytes_eq, bytes_eq_iff, bytes_Eq, Map, lookup, lookup-insert, insert,
  Unique, List, [], ◌∷◌, Option, none, some, ◌≡◌, refl, subst, arith, Bool-cases, List-cases, inl,
  inr,
}
use omnistat.Manifest.{Desired}
use omnistat.Schema.Types.{Current, CurrentTemplate, CurrentAttribute, Action, Resolved, Api}
use omnistat.Schema.Diff.{diff}
use omnistat.Schema.Diff.InPlace.{InPlace, diff-InPlace}
use omnistat.Schema.Execute.{resolved_from, template_ids_of, attribute_ids_of, list_items_of}
use omnistat.Schema.Apply.{Report, run, finish, apply, max_rereads}

-- What is found of the second, if nothing is of the first.
abbrev first_of {ℓ} : {A : Type ℓ} → Option A → Option A → Option A
first_of none y = y
first_of (some x) y = some x

abbrev template_id : Option CurrentTemplate → Option Bytes
template_id none = none
template_id (some t) = some t.id

abbrev attribute_id : Option CurrentAttribute → Option Bytes
attribute_id none = none
attribute_id (some a) = some a.id

-- The options' ids, of a list attribute that has some.
abbrev items_in : Map Bytes Bytes → Option (Map Bytes Bytes)
items_in [] = none
items_in (o ∷ os) = some (o ∷ os)

abbrev items : Option CurrentAttribute → Option (Map Bytes Bytes)
items none = none
items (some a) = items_in a.option_ids

-- The ids are those that the project has under the slugs, and no others.
pub record Identifies (cur : Current) (r : Resolved) : Type 0 where
  pub templates : (slug : Bytes) → lookup slug r.templates ≡ template_id (lookup slug cur.templates)
  pub attributes :
      (slug : Bytes) → lookup slug r.attributes ≡ attribute_id (lookup slug cur.attributes)
  pub list_items : (slug : Bytes) → lookup slug r.list_items ≡ items (lookup slug cur.attributes)

lookup-template_ids_of :
    (k : Bytes) (ts : Map Bytes CurrentTemplate) (m : Map Bytes Bytes)
    → Unique ts
    → lookup k (template_ids_of ts m) ≡ first_of (template_id (lookup k ts)) (lookup k m)
unfolding template_ids_of lookup
lookup-template_ids_of k [] m u = refl
lookup-template_ids_of k ((j, t) ∷ ts) m u =
    let ih = lookup-template_ids_of k ts (insert j t.id m) u.1 in
    elim (Bool-cases (bytes_eq j k)) [
      | inl same ↦
          let gone = subst (λ x. lookup x ts ≡ none) ((bytes_eq_iff j k).0 same) u.0 in
          ground (arith, ih, same, gone, lookup-insert j k t.id m)
      | inr other ↦ ground (arith, ih, other, lookup-insert j k t.id m)
    ]

lookup-attribute_ids_of :
    (k : Bytes) (attrs : Map Bytes CurrentAttribute) (m : Map Bytes Bytes)
    → Unique attrs
    → lookup k (attribute_ids_of attrs m) ≡ first_of (attribute_id (lookup k attrs)) (lookup k m)
unfolding attribute_ids_of lookup
lookup-attribute_ids_of k [] m u = refl
lookup-attribute_ids_of k ((j, a) ∷ attrs) m u =
    let ih = lookup-attribute_ids_of k attrs (insert j a.id m) u.1 in
    elim (Bool-cases (bytes_eq j k)) [
      | inl same ↦
          let gone = subst (λ x. lookup x attrs ≡ none) ((bytes_eq_iff j k).0 same) u.0 in
          ground (arith, ih, same, gone, lookup-insert j k a.id m)
      | inr other ↦ ground (arith, ih, other, lookup-insert j k a.id m)
    ]

lookup-list_items_of :
    (k : Bytes) (attrs : Map Bytes CurrentAttribute) (m : Map Bytes (Map Bytes Bytes))
    → Unique attrs
    → lookup k (list_items_of attrs m) ≡ first_of (items (lookup k attrs)) (lookup k m)
unfolding list_items_of lookup
lookup-list_items_of k [] m u = refl
lookup-list_items_of k ((j, a) ∷ attrs) m u = elim (List-cases a.option_ids) [
  | inl e ↦
      let ih = lookup-list_items_of k attrs m u.1 in
      elim (Bool-cases (bytes_eq j k)) [
        | inl same ↦
            let gone = subst (λ x. lookup x attrs ≡ none) ((bytes_eq_iff j k).0 same) u.0 in
            rw (e, list_items_of, same, lookup) (ground (arith, ih, gone, e))
        | inr other ↦ rw (e, list_items_of, other, lookup) (ground (arith, ih))
      ]
  | inr (o, os, e) ↦
      let ih = lookup-list_items_of k attrs (insert j (o ∷ os) m) u.1 in
      elim (Bool-cases (bytes_eq j k)) [
        | inl same ↦
            let gone = subst (λ x. lookup x attrs ≡ none) ((bytes_eq_iff j k).0 same) u.0 in
            ground (arith, ih, same, gone, e, lookup-insert j k (o ∷ os) m)
        | inr other ↦ ground (arith, ih, other, e, lookup-insert j k (o ∷ os) m)
      ]
]

resolved_from-Identifies :
    (cur : Current)
    → Unique cur.templates
    → Unique cur.attributes
    → Identifies cur (resolved_from cur)
unfolding resolved_from lookup
resolved_from-Identifies cur t a = record {
  templates = λ slug. ground (arith, lookup-template_ids_of slug cur.templates [] t);
  attributes = λ slug. ground (arith, lookup-attribute_ids_of slug cur.attributes [] a);
  list_items = λ slug. ground (arith, lookup-list_items_of slug cur.attributes [] a);
}

-- Nothing was done or read again, and the ids are the project's.
pub record Untouched (cur : Current) (rep : Report) : Type 0 where
  pub none_done : rep.done ≡ []
  pub none_failed : rep.failure ≡ none
  pub none_reread : rep.rereads ≡ 0
  pub ids : Identifies cur rep.resolved

module _ {S : Type 0} (api : Api S) (sleep : ℕ → S → Bool × S) (delays : List ℕ)
    (desired : Desired) where
  finish-run-nil :
      (actions : List Action) (rep : Report) (s : S)
      → actions ≡ []
      → finish api sleep delays desired
          (run api sleep delays desired max_rereads actions rep false s)
        ≡ ((rep, none), s)
  unfolding run finish
  finish-run-nil [] rep s h = refl
  finish-run-nil (a ∷ rest) rep s h = cc

  -- Applying to a project that has everything desired, and one template and one attribute of a
  -- slug, makes no call, does and re-reads nothing, and returns for every slug the ids that the
  -- project has of its template, its attribute and its options, and no others.
  pub apply-InPlace :
      (cur : Current) (s : S)
      → Unique cur.templates
      → Unique cur.attributes
      → InPlace desired cur
      → (rep : Report) × Untouched cur rep
        × (apply api sleep delays desired cur s ≡ ((rep, none), s))
  unfolding apply
  apply-InPlace cur s t a h =
      let (actions, conflicts) = (diff-InPlace desired cur).1 h in
      let rep : Report = record {
        done = [];
        failure = none;
        rereads = 0;
        resolved = resolved_from cur;
      } in
      (
        rep,
        record {
          none_done = refl;
          none_failed = refl;
          none_reread = refl;
          ids = resolved_from-Identifies cur t a;
        },
        rw (conflicts, apply) (finish-run-nil (diff desired cur).actions _ s actions),
      )
