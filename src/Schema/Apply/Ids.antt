-- ===== src/Schema/Apply/Ids.antt =====
-- internal/schema/apply.go: the ids that writes returned, and later reads.
use omnistat.Prelude.{
  ℕ, Bool, Bytes, bytes_eq, bytes_eq_iff, bytes_Eq, Map, Unique, insert-Unique, lookup,
  lookup-insert, insert, [], ◌∷◌, none, some, ◌≡◌, refl, ap, subst, ◌∙◌, arith, Bool-cases, inl,
  inr,
}
use omnistat.Settle.{Result, ok, err}
use omnistat.Schema.Types.{CurrentTemplate, CurrentAttribute, Current, Resolved, Api, ApiError}
use omnistat.Schema.Execute.{template_ids_of, attribute_ids_of, resolved_from, overlay, merge}

-- The ids that the platform returned for the templates and attributes that it created.
pub record Ids : Type 0 where
  pub templates : Map Bytes Bytes
  pub attributes : Map Bytes Bytes

abbrev pub no_ids : Ids
no_ids = record { templates = []; attributes = [] }

abbrev pub note_template : Bytes → Result ApiError Bytes → Ids → Ids
note_template slug (ok id) ids = record ids { templates = insert slug id ids.templates }
note_template slug (err e) ids = ids

abbrev pub note_attribute : Bytes → Result ApiError Bytes → Ids → Ids
note_attribute slug (ok id) ids = record ids { attributes = insert slug id ids.attributes }
note_attribute slug (err e) ids = ids

-- The same platform, which remembers the ids that it returns.
abbrev pub noting : {S : Type 0} → Api S → Api (S × Ids)
noting api = record {
  read_schema = λ (s, ids). let (r, s') = api.read_schema s in (r, (s', ids));
  create_template =
      λ p (s, ids). let (r, s') = api.create_template p s in (r, (s', note_template p.slug r ids));
  create_attribute = λ p (s, ids).
      let (r, s') = api.create_attribute p s in (r, (s', note_attribute p.slug r ids));
  add_list_option = λ id o (s, ids). let (r, s') = api.add_list_option id o s in (r, (s', ids));
  bind_attribute = λ id ts (s, ids). let (r, s') = api.bind_attribute id ts s in (r, (s', ids));
}

abbrev pub quiet : {S : Type 0} → (ℕ → S → Bool × S) → ℕ → S × Ids → Bool × (S × Ids)
quiet sleep d (s, ids) = let (c, s') = sleep d s in (c, (s', ids))

-- Every noted id is the resolved one.
pub record Known (ids : Ids) (r : Resolved) : Type 0 where
  pub templates_unique : Unique r.templates
  pub attributes_unique : Unique r.attributes
  pub templates :
      (slug id : Bytes) → lookup slug ids.templates ≡ some id → lookup slug r.templates ≡ some id
  pub attributes :
      (slug id : Bytes) → lookup slug ids.attributes ≡ some id → lookup slug r.attributes ≡ some id

overlay-none :
    (own read : Map Bytes Bytes) (k : Bytes)
    → lookup k own ≡ none
    → lookup k (overlay own read) ≡ lookup k read
unfolding overlay lookup
overlay-none [] read k h = refl
overlay-none ((j, w) ∷ own) read k h = elim (Bool-cases (bytes_eq j k)) [
  | inl e ↦ absurd (ground (arith, h, e))
  | inr e ↦
      overlay-none own (insert j w read) k (ground (arith, h, e))
      ∙ (lookup-insert j k w read ∙ (rw e refl))
]

overlay-some :
    (own read : Map Bytes Bytes) (k v : Bytes)
    → Unique own
    → lookup k own ≡ some v
    → lookup k (overlay own read) ≡ some v
unfolding overlay lookup
overlay-some [] read k v u h = cc
overlay-some ((j, w) ∷ own) read k v u h = elim (Bool-cases (bytes_eq j k)) [
  | inl e ↦
      let same = (bytes_eq_iff j k).0 e in
      let w_v : w ≡ v = ground (arith, h, e) in
      overlay-none own (insert j w read) k (subst (λ x. lookup x own ≡ none) same u.0)
      ∙ (lookup-insert j k w read ∙ (rw e (ap some w_v)))
  | inr e ↦ overlay-some own (insert j w read) k v u.1 (ground (arith, h, e))
]

overlay-Unique : (own read : Map Bytes Bytes) → Unique read → Unique (overlay own read)
unfolding overlay
overlay-Unique [] read u = u
overlay-Unique ((j, w) ∷ own) read u =
    overlay-Unique own (insert j w read) (insert-Unique j w read u)

pub template_ids_of-Unique :
    (ts : Map Bytes CurrentTemplate) (m : Map Bytes Bytes)
    → Unique m
    → Unique (template_ids_of ts m)
unfolding template_ids_of
template_ids_of-Unique [] m u = u
template_ids_of-Unique ((k, t) ∷ ts) m u =
    template_ids_of-Unique ts (insert k t.id m) (insert-Unique k t.id m u)

pub attribute_ids_of-Unique :
    (ts : Map Bytes CurrentAttribute) (m : Map Bytes Bytes)
    → Unique m
    → Unique (attribute_ids_of ts m)
unfolding attribute_ids_of
attribute_ids_of-Unique [] m u = u
attribute_ids_of-Unique ((k, t) ∷ ts) m u =
    attribute_ids_of-Unique ts (insert k t.id m) (insert-Unique k t.id m u)

-- A read overlaid with what is known.
pub merge-Known :
    (cur : Current) (own : Resolved) (ids : Ids)
    → Known ids own
    → Known ids (merge (resolved_from cur) own)
unfolding merge resolved_from
merge-Known cur own ids known = record {
  templates_unique =
      overlay-Unique own.templates (template_ids_of cur.templates [])
        (template_ids_of-Unique cur.templates [] tt);
  attributes_unique =
      overlay-Unique own.attributes (attribute_ids_of cur.attributes [])
        (attribute_ids_of-Unique cur.attributes [] tt);
  templates = λ slug id h.
      overlay-some own.templates (template_ids_of cur.templates []) slug id known.templates_unique
        (known.templates slug id h);
  attributes = λ slug id h.
      overlay-some own.attributes (attribute_ids_of cur.attributes []) slug id
        known.attributes_unique (known.attributes slug id h);
}
