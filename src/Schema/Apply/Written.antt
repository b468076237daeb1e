-- ===== src/Schema/Apply/Written.antt =====
-- internal/schema/apply.go: what a run writes to the platform, and what it counts as done.
use omnistat.Prelude.{
  ℕ, ◌+◌, ◌≤◌, Bool, true, Bytes, codes, bytes_eq, bytes_eq_iff, lookup, bytes_Eq, List, [], ◌∷◌,
  ◌++◌, Option, none, ◌≡◌, ◌⊎◌, refl, sym, ap, ◌∙◌, arith, Bool-cases, Option-cases, inl, inr,
  count_if, count_if-append,
}
use omnistat.Settle.{Result, ok, err, Result-cases, until}
use omnistat.Schema.Types.{
  Current, Action, ActionType, create_template, create_attribute, add_list_option, bind_attribute,
  Resolved, Api, ApiError, CreateTemplateParams, slug_of,
}
use omnistat.Schema.Execute.{
  ExecuteError, execute, execute_template, execute_attribute, create_with, execute_option,
  execute_bind, ids_of, attribute_params, lacks_reference, attribute_id_of, is_blank, bind_ids,
}
use omnistat.Schema.Apply.{action_key, action_name}
use omnistat.Schema.Apply.Creations.{is_create, creations}

-- The slugs of the templates and attributes that the platform created, once for each time.
pub record Writes : Type 0 where
  pub templates : List Bytes
  pub attributes : List Bytes

abbrev pub no_writes : Writes
no_writes = record { templates = []; attributes = [] }

abbrev pub wrote : Bytes → Result ApiError Bytes → List Bytes → List Bytes
wrote slug (ok id) log = log ++ slug ∷ []
wrote slug (err e) log = log

-- The same platform, with a list of what it created.
abbrev pub writing : {S : Type 0} → Api S → Api (S × Writes)
writing api = record {
  read_schema = λ (s, w). let (r, s') = api.read_schema s in (r, (s', w));
  create_template = λ p (s, w).
      let (r, s') = api.create_template p s in
      (r, (s', record w { templates = wrote p.slug r w.templates }));
  create_attribute = λ p (s, w).
      let (r, s') = api.create_attribute p s in
      (r, (s', record w { attributes = wrote p.slug r w.attributes }));
  add_list_option = λ id o (s, w). let (r, s') = api.add_list_option id o s in (r, (s', w));
  bind_attribute = λ id ts (s, w). let (r, s') = api.bind_attribute id ts s in (r, (s', w));
}

abbrev pub still : {S : Type 0} → (ℕ → S → Bool × S) → ℕ → S × Writes → Bool × (S × Writes)
still sleep d (s, w) = let (c, s') = sleep d s in (c, (s', w))

module _ {S : Type 0} (api : Api S) where
  abbrev Out : Type 0
  Out = Option ExecuteError × (Resolved × (S × Writes))

  -- What an action of a type writes: nothing, or the object that it creates if it succeeds.
  abbrev pub Wrote : Action → Writes → ActionType → Out → Type 0
  Wrote a w t out =
      (out.1.1.1 ≡ w)
      ⊎ ((out.0 ≡ none)
          × (t ≡ create_template)
          × (out.1.1.1 ≡ record w { templates = w.templates ++ a.template ∷ [] }))
      ⊎ ((out.0 ≡ none)
          × (t ≡ create_attribute)
          × (out.1.1.1 ≡ record w { attributes = w.attributes ++ a.attribute ∷ [] }))

  template-Wrote :
      (a : Action) (r : Resolved) (s : S) (w : Writes)
      → Wrote a w create_template (execute_template (writing api) a r (s, w))
  unfolding execute_template
  template-Wrote a r s w =
      let p : CreateTemplateParams = record {
        slug = a.template;
        name = a.name;
        description = a.description;
      } in
      elim (Result-cases (api.create_template p s).0) [
        | inl (e, h) ↦ inl (rw (h, execute_template) (rw h refl))
        | inr (id, h) ↦
            inr (inl (rw (h, execute_template) refl, refl, rw (h, execute_template) (rw h refl)))
      ]

  attribute-Wrote :
      (a : Action) (r : Resolved) (s : S) (w : Writes)
      → Wrote a w create_attribute (execute_attribute (writing api) a r (s, w))
  unfolding execute_attribute create_with attribute_params
  attribute-Wrote a r s w = elim (Result-cases (ids_of r.templates a.templates)) [
    | inl (slug, h) ↦ inl (rw (h, execute_attribute) refl)
    | inr (ts, h) ↦
        let p = attribute_params a ts r in
        elim (Bool-cases (lacks_reference p)) [
          | inl l ↦ inl (rw (h, execute_attribute, create_with, l) refl)
          | inr l ↦ elim (Result-cases (api.create_attribute p s).0) [
            | inl (e, k) ↦ inl (rw (h, execute_attribute, create_with, l, k) (rw k refl))
            | inr (id, k) ↦ inr (
                inr (
                  rw (h, execute_attribute, create_with, l, k) refl,
                  refl,
                  rw (h, execute_attribute, create_with, l, k) (rw k refl),
                ))
          ]
        ]
  ]

  option-Wrote :
      (a : Action) (r : Resolved) (s : S) (w : Writes)
      → Wrote a w add_list_option (execute_option (writing api) a r (s, w))
  unfolding execute_option
  option-Wrote a r s w = elim (Bool-cases (is_blank (attribute_id_of a r))) [
    | inl h ↦ inl (rw (h, execute_option) refl)
    | inr h ↦ elim (Result-cases (api.add_list_option (attribute_id_of a r) a.option s).0) [
      | inl (e, k) ↦ inl (rw (h, k, execute_option) refl)
      | inr (item, k) ↦ inl (rw (h, k, execute_option) refl)
    ]
  ]

  bind-Wrote :
      (a : Action) (r : Resolved) (s : S) (w : Writes)
      → Wrote a w bind_attribute (execute_bind (writing api) a r (s, w))
  unfolding execute_bind
  bind-Wrote a r s w = elim (Option-cases (lookup a.template r.templates)) [
    | inl h ↦ inl (rw (h, execute_bind) refl)
    | inr (id, h) ↦
        elim (Result-cases (api.bind_attribute a.attribute_id (bind_ids a.template_ids id) s).0) [
          | inl (e, k) ↦ inl (rw (h, k, execute_bind) refl)
          | inr (u, k) ↦ inl (rw (h, k, execute_bind) refl)
        ]
  ]

  pub execute-Wrote :
      (a : Action) (r : Resolved) (s : S) (w : Writes)
      → Wrote a w a.action_type (execute (writing api) a r (s, w))
  unfolding execute
  execute-Wrote a r s w =
      elim (a.action_type)
        as (λ t. Wrote a w t (elim t [
          | create_template ↦ execute_template (writing api) a r (s, w)
          | create_attribute ↦ execute_attribute (writing api) a r (s, w)
          | add_list_option ↦ execute_option (writing api) a r (s, w)
          | bind_attribute ↦ execute_bind (writing api) a r (s, w)
        ])) [
          | create_template ↦ template-Wrote a r s w
          | create_attribute ↦ attribute-Wrote a r s w
          | add_list_option ↦ option-Wrote a r s w
          | bind_attribute ↦ bind-Wrote a r s w
        ]

  pub until-writes :
      (sleep : ℕ → S → Bool × S) (done : Current → Bool) (delays : List ℕ) (s : S) (w : Writes)
      → (until (still sleep) (writing api).read_schema done delays (s, w)).1.1 ≡ w
  unfolding until
  until-writes sleep done [] s w = ground arith
  until-writes sleep done (d ∷ delays) s w =
      ground (arith, until-writes sleep done delays (sleep d (api.read_schema s).1).1 w)

-- A creation of the template of a slug has its key.
template_key_lem :
    (a : Action) (slug : Bytes)
    → a.action_type ≡ create_template
    → count_if (bytes_eq slug) (a.template ∷ [])
      ≤ creations (codes "create_template" ++ codes " " ++ slug) (a ∷ [])
unfolding count_if is_create action_key action_name slug_of
template_key_lem a slug t = elim (Bool-cases (bytes_eq slug a.template)) [
  | inr n ↦ rw n (omega arith)
  | inl y ↦
      let pre = codes "create_template" ++ codes " " in
      let key : action_key a ≡ pre ++ a.template = rw (t, action_key) refl in
      let creates : is_create a.action_type ≡ true = rw t refl in
      let same : bytes_eq (action_key a) (pre ++ slug) ≡ true =
        (bytes_eq_iff (action_key a) (pre ++ slug)).1
          (key ∙ ap (λ z. pre ++ z) (sym ((bytes_eq_iff slug a.template).0 y))) in
      ground (arith, y, creates, same)
]

-- A creation of the attribute of a slug has its key.
attribute_key_lem :
    (a : Action) (slug : Bytes)
    → a.action_type ≡ create_attribute
    → count_if (bytes_eq slug) (a.attribute ∷ [])
      ≤ creations (codes "create_attribute" ++ codes " " ++ slug) (a ∷ [])
unfolding count_if is_create action_key action_name slug_of
attribute_key_lem a slug t = elim (Bool-cases (bytes_eq slug a.attribute)) [
  | inr n ↦ rw n (omega arith)
  | inl y ↦
      let pre = codes "create_attribute" ++ codes " " in
      let key : action_key a ≡ pre ++ a.attribute = rw (t, action_key) refl in
      let creates : is_create a.action_type ≡ true = rw t refl in
      let same : bytes_eq (action_key a) (pre ++ slug) ≡ true =
        (bytes_eq_iff (action_key a) (pre ++ slug)).1
          (key ∙ ap (λ z. pre ++ z) (sym ((bytes_eq_iff slug a.attribute).0 y))) in
      ground (arith, y, creates, same)
]

-- A count of writes that grows no more than the creations of a key that are done.
pub record Counts {S : Type 0} (api : Api S) (k : Bytes) (made : Writes → ℕ) : Type 0 where
  pub none_yet : made no_writes ≡ 0
  pub step :
      (a : Action) (r : Resolved) (s : S × Writes)
      → let out = execute (writing api) a r s in
        ((out.0 ≡ none) × (made out.1.1.1 ≤ made s.1 + creations k (a ∷ [])))
        ⊎ (made out.1.1.1 ≡ made s.1)

pub template-Counts :
    {S : Type 0} (api : Api S) (slug : Bytes)
    → Counts api
        (codes "create_template" ++ codes " " ++ slug)
        (λ w. count_if (bytes_eq slug) w.templates)
unfolding count_if
template-Counts api slug = record {
  none_yet = refl;
  step = λ a r s. elim (execute-Wrote api a r s.0 s.1) [
    | inl same ↦ inr (ap (λ w. count_if (bytes_eq slug) w.templates) same)
    | inr (inl (fine, t, grown)) ↦ inl (
      fine,
      omega (
        arith,
        ap (λ w. count_if (bytes_eq slug) w.templates) grown,
        count_if-append (bytes_eq slug) s.1.templates (a.template ∷ []),
        template_key_lem a slug t,
      ),
    )
    | inr (inr (fine, t, grown)) ↦ inr (ap (λ w. count_if (bytes_eq slug) w.templates) grown)
  ];
}

pub attribute-Counts :
    {S : Type 0} (api : Api S) (slug : Bytes)
    → Counts api
        (codes "create_attribute" ++ codes " " ++ slug)
        (λ w. count_if (bytes_eq slug) w.attributes)
unfolding count_if
attribute-Counts api slug = record {
  none_yet = refl;
  step = λ a r s. elim (execute-Wrote api a r s.0 s.1) [
    | inl same ↦ inr (ap (λ w. count_if (bytes_eq slug) w.attributes) same)
    | inr (inl (fine, t, grown)) ↦ inr (ap (λ w. count_if (bytes_eq slug) w.attributes) grown)
    | inr (inr (fine, t, grown)) ↦ inl (
      fine,
      omega (
        arith,
        ap (λ w. count_if (bytes_eq slug) w.attributes) grown,
        count_if-append (bytes_eq slug) s.1.attributes (a.attribute ∷ []),
        attribute_key_lem a slug t,
      ),
    )
  ];
}
