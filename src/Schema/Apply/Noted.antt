-- ===== src/Schema/Apply/Noted.antt =====
-- internal/schema/apply.go: the ids that one action, or a wait for a write, leaves known.
use omnistat.Prelude.{
  ℕ, Bool, Bytes, bytes_eq, bytes_Eq, Map, insert-Unique, lookup, lookup-insert, insert, List, [],
  ◌∷◌, Option, some, ◌≡◌, sym, subst, ◌∙◌, arith, Bool-cases, Option-cases, inl, inr,
}
use omnistat.Settle.{Result-cases, until}
use omnistat.Schema.Types.{
  Current, Action, create_template, create_attribute, add_list_option, bind_attribute, Resolved,
  Api, CreateTemplateParams,
}
use omnistat.Schema.Execute.{
  ExecuteError, execute, execute_template, execute_attribute, create_with, execute_option,
  execute_bind, ids_of, attribute_params, lacks_reference, attribute_id_of, is_blank, with_item,
  bind_ids,
}
use omnistat.Schema.Apply.Ids.{Ids, noting, note_template, note_attribute, quiet, Known}

insert-both :
    (k v : Bytes) (m n : Map Bytes Bytes)
    → ((slug id : Bytes) → lookup slug m ≡ some id → lookup slug n ≡ some id)
    → (slug id : Bytes) → lookup slug (insert k v m) ≡ some id
    → lookup slug (insert k v n) ≡ some id
insert-both k v m n known slug id h = elim (Bool-cases (bytes_eq k slug)) [
  | inl e ↦ lookup-insert k slug v n ∙ ground (arith, e, h, lookup-insert k slug v m)
  | inr e ↦
      lookup-insert k slug v n
      ∙ (rw e (known slug id (ground (arith, e, h, lookup-insert k slug v m))))
]

module _ {S : Type 0} (api : Api S) where
  -- What one action leaves: the noted ids are known afterwards, also if it failed.
  abbrev pub After : Option ExecuteError × (Resolved × (S × Ids)) → Type 0
  After (e, (r, (s, ids))) = Known ids r

  template-Known :
      (a : Action) (r : Resolved) (s : S) (ids : Ids)
      → Known ids r
      → After (execute_template (noting api) a r (s, ids))
  unfolding execute_template
  template-Known a r s ids known =
      let p : CreateTemplateParams = record {
        slug = a.template;
        name = a.name;
        description = a.description;
      } in
      elim (Result-cases (api.create_template p s).0) [
        | inl (e, h) ↦
            rw (h, execute_template)
              (subst (λ x. Known (note_template a.template x ids) r) (sym h) known)
        | inr (id, h) ↦
            rw (h, execute_template)
              (subst
                (λ x.
                  Known (note_template a.template x ids)
                    (record r { templates = insert a.template id r.templates }))
                (sym h)
                (record {
                  templates_unique = insert-Unique a.template id r.templates known.templates_unique;
                  attributes_unique = known.attributes_unique;
                  templates = insert-both a.template id ids.templates r.templates known.templates;
                  attributes = known.attributes;
                }))
      ]

  attribute-Known :
      (a : Action) (r : Resolved) (s : S) (ids : Ids)
      → Known ids r
      → After (execute_attribute (noting api) a r (s, ids))
  unfolding execute_attribute create_with attribute_params
  attribute-Known a r s ids known = elim (Result-cases (ids_of r.templates a.templates)) [
    | inl (slug, h) ↦ rw (h, execute_attribute) known
    | inr (ts, h) ↦
        let p = attribute_params a ts r in
        elim (Bool-cases (lacks_reference p)) [
          | inl l ↦ rw (h, execute_attribute, create_with, l) known
          | inr l ↦ elim (Result-cases (api.create_attribute p s).0) [
            | inl (e, k) ↦
                rw (h, execute_attribute, create_with, l, k)
                  (subst (λ x. Known (note_attribute a.attribute x ids) r) (sym k) known)
            | inr (id, k) ↦
                rw (h, execute_attribute, create_with, l, k)
                  (subst
                    (λ x.
                      Known (note_attribute a.attribute x ids)
                        (record r { attributes = insert a.attribute id r.attributes }))
                    (sym k)
                    (record {
                      templates_unique = known.templates_unique;
                      attributes_unique =
                          insert-Unique a.attribute id r.attributes known.attributes_unique;
                      templates = known.templates;
                      attributes =
                          insert-both a.attribute id ids.attributes r.attributes known.attributes;
                    }))
          ]
        ]
  ]

  option-Known :
      (a : Action) (r : Resolved) (s : S) (ids : Ids)
      → Known ids r
      → After (execute_option (noting api) a r (s, ids))
  unfolding execute_option with_item
  option-Known a r s ids known = elim (Bool-cases (is_blank (attribute_id_of a r))) [
    | inl h ↦ rw (h, execute_option) known
    | inr h ↦ elim (Result-cases (api.add_list_option (attribute_id_of a r) a.option s).0) [
      | inl (e, k) ↦ rw (h, k, execute_option) known
      | inr (item, k) ↦
          rw (h, k, execute_option)
            (record {
              templates_unique = known.templates_unique;
              attributes_unique = known.attributes_unique;
              templates = known.templates;
              attributes = known.attributes;
            })
    ]
  ]

  bind-Known :
      (a : Action) (r : Resolved) (s : S) (ids : Ids)
      → Known ids r
      → After (execute_bind (noting api) a r (s, ids))
  unfolding execute_bind
  bind-Known a r s ids known = elim (Option-cases (lookup a.template r.templates)) [
    | inl h ↦ rw (h, execute_bind) known
    | inr (id, h) ↦
        elim (Result-cases (api.bind_attribute a.attribute_id (bind_ids a.template_ids id) s).0) [
          | inl (e, k) ↦ rw (h, k, execute_bind) known
          | inr (u, k) ↦ rw (h, k, execute_bind) known
        ]
  ]

  pub execute-Known :
      (a : Action) (r : Resolved) (s : S) (ids : Ids)
      → Known ids r
      → After (execute (noting api) a r (s, ids))
  unfolding execute
  execute-Known a r s ids known =
      elim (a.action_type)
        as (λ t. After (elim t [
          | create_template ↦ execute_template (noting api) a r (s, ids)
          | create_attribute ↦ execute_attribute (noting api) a r (s, ids)
          | add_list_option ↦ execute_option (noting api) a r (s, ids)
          | bind_attribute ↦ execute_bind (noting api) a r (s, ids)
        ])) [
          | create_template ↦ template-Known a r s ids known
          | create_attribute ↦ attribute-Known a r s ids known
          | add_list_option ↦ option-Known a r s ids known
          | bind_attribute ↦ bind-Known a r s ids known
        ]

  pub until-ids :
      (sleep : ℕ → S → Bool × S) (done : Current → Bool) (delays : List ℕ) (s : S) (ids : Ids)
      → (until (quiet sleep) (noting api).read_schema done delays (s, ids)).1.1 ≡ ids
  unfolding until
  until-ids sleep done [] s ids = ground arith
  until-ids sleep done (d ∷ delays) s ids =
      ground (arith, until-ids sleep done delays (sleep d (api.read_schema s).1).1 ids)
