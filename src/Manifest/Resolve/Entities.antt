-- ===== src/Manifest/Resolve/Entities.antt =====
-- internal/manifest/resolve.go, `Resolve`: the resolved slugs of the entity templates.
use omnistat.Prelude.{
  All-imp, append-nil_both, true, false, Bytes, bytes_eq, bytes_eq_refl, bytes_Eq, Map, lookup,
  insert, lookup-insert, List, [], ◌∷◌, ◌++◌, some, ◌≡◌, ◌⊎◌, refl, sym, ◌∙◌, subst, arith, All,
  AllDistinct, Bool-cases, inl, inr, if◌then◌else◌,
}
use omnistat.Prelude.Keyed.{bytes_eq_sym}
use omnistat.Manifest.{contains}
use omnistat.Manifest.Validate.{Manifest, entities_of}
use omnistat.Manifest.Resolve.{Overrides, entity_is_host, is_set, module_override, report_if}
use omnistat.Manifest.Resolve.Templates.{
  Entities, add_entities, add_module, entity_pass, rename_of, shared, slugs_of,
}

-- The template that `k` is resolved to is not the host template.
abbrev pub Off : Bytes → Map Bytes Bytes → Bytes → Type 0
Off host inner k = (ent : Bytes) × (lookup k inner ≡ some ent) × (bytes_eq ent host ≡ false)

insert-Off :
    (host e slug k : Bytes) (inner : Map Bytes Bytes)
    → bytes_eq slug host ≡ false
    → (bytes_eq e k ≡ true) ⊎ Off host inner k
    → Off host (insert e slug inner) k
insert-Off host e slug k inner off h = elim (Bool-cases (bytes_eq e k)) [
  | inl b ↦ (slug, lookup-insert e k slug inner ∙ rw b refl, off)
  | inr b ↦ elim h [
    | inl y ↦ absurd (ground (arith, b, y))
    | inr (ent, there, far) ↦ (ent, lookup-insert e k slug inner ∙ rw b there, far)
  ]
]

-- A loop that ends without a problem.
add_entities-Off :
    (host name rename : Bytes) (es : List Bytes) (inner : Map Bytes Bytes) (s : Entities)
    → let out = add_entities host name rename es inner s in
      out.1.problems ≡ []
      → (s.problems ≡ [])
        × (out.1.slugs ≡ s.slugs)
        × ((k : Bytes) → (contains k es ≡ true) ⊎ Off host inner k → Off host out.0 k)
unfolding add_entities contains
add_entities-Off host name rename [] inner s h =
    (h, refl, λ k c. elim c [ inl e ↦ absurd (ground (arith, e)) | inr o ↦ o ])
add_entities-Off host name rename (e ∷ es) inner s h =
    let slug = if is_set rename then rename else e in
    let own = report_if (bytes_eq slug host) (entity_is_host name e) in
    let other = shared slug name (lookup slug s.owner) in
    let s' : Entities = record s {
      owner = insert slug name s.owner;
      problems = s.problems ++ (own ++ other);
    } in
    let (none_yet, same, rest) = add_entities-Off host name rename es (insert e slug inner) s' h in
    let parts = append-nil_both s.problems (own ++ other) none_yet in
    let off : bytes_eq slug host ≡ false = elim (Bool-cases (bytes_eq slug host)) [
      | inr n ↦ n
      | inl y ↦ absurd (ground (arith, y, (append-nil_both own other parts.1).0))
    ] in
    (
      parts.0,
      same,
      λ k c. elim (Bool-cases (bytes_eq e k)) [
        | inl b ↦ rest k (inr (insert-Off host e slug k inner off (inl b)))
        | inr b ↦ elim c [
          | inl y ↦ rest k (inl (ground (arith, b, y)))
          | inr o ↦ rest k (inr (insert-Off host e slug k inner off (inr o)))
        ]
      ],
    )

-- A module's slugs are put under its name.
slugs_of-insert :
    (s : Entities) (name n : Bytes) (inner : Map Bytes Bytes)
    → slugs_of (record s { slugs = insert name inner s.slugs }) n
      ≡ (if bytes_eq name n then inner else slugs_of s n)
unfolding slugs_of
slugs_of-insert s name n inner = elim (Bool-cases (bytes_eq name n)) [
  | inl b ↦ rw (lookup-insert name n inner s.slugs, b, slugs_of) refl
  | inr b ↦ rw (lookup-insert name n inner s.slugs, b, slugs_of) refl
]

slugs_of-slugs : (s t : Entities) (n : Bytes) → s.slugs ≡ t.slugs → slugs_of s n ≡ slugs_of t n
unfolding slugs_of
slugs_of-slugs s t n e = rw e refl

add_module-Off :
    (host : Bytes) (ov : Overrides) (m : Manifest) (es : List Bytes) (s : Entities)
    → let out = add_module host ov m es s in
      out.problems ≡ []
      → (s.problems ≡ [])
        × ((k : Bytes) → contains k es ≡ true → Off host (slugs_of out m.module_name) k)
        × ((name : Bytes)
            → bytes_eq m.module_name name ≡ false
            → slugs_of out name ≡ slugs_of s name)
unfolding add_module contains
add_module-Off host ov m [] s h = (h, λ k c. absurd (ground (arith, c)), λ name n. refl)
add_module-Off host ov m (e ∷ es) s h =
    let o = module_override (lookup m.module_name ov.modules) in
    let renamed = rename_of m o (e ∷ es) in
    let s' : Entities = record s { problems = s.problems ++ renamed.1 } in
    let out = add_entities host m.module_name renamed.0 (e ∷ es) [] s' in
    let (none_yet, same, rest) = add_entities-Off host m.module_name renamed.0 (e ∷ es) [] s' h in
    let name = m.module_name in
    (
      (append-nil_both s.problems renamed.1 none_yet).0,
      λ k c.
          subst (λ z. Off host z k)
            (sym (slugs_of-insert out.1 name name out.0 ∙ rw (bytes_eq_refl name) refl))
            (rest k (inl c)),
      λ n d. slugs_of-insert out.1 name n out.0 ∙ (rw d refl ∙ slugs_of-slugs out.1 s n same),
    )

-- After all modules, if no two have the same name.
pub entity_pass-Off :
    (host : Bytes) (ov : Overrides) (ms : List Manifest) (s : Entities)
    → let out = entity_pass host ov ms s in
      out.problems ≡ []
      → AllDistinct (λ m. m.module_name) ms
      → (s.problems ≡ [])
        × All
            (λ m.
              (k : Bytes)
              → contains k (entities_of m.templates) ≡ true
              → Off host (slugs_of out m.module_name) k)
            ms
        × ((name : Bytes)
            → All (λ m. bytes_eq m.module_name name ≡ false) ms
            → slugs_of out name ≡ slugs_of s name)
unfolding entity_pass
entity_pass-Off host ov [] s h d = (h, tt, λ name n. refl)
entity_pass-Off host ov (m ∷ ms) s h d =
    let s1 = add_module host ov m (entities_of m.templates) s in
    let out = entity_pass host ov ms s1 in
    let (clean, all, kept) = entity_pass-Off host ov ms s1 h d.1 in
    let (none_yet, own, others) = add_module-Off host ov m (entities_of m.templates) s clean in
    let stays : slugs_of out m.module_name ≡ slugs_of s1 m.module_name =
      kept m.module_name (All-imp ms (λ n e. bytes_eq_sym m.module_name n.module_name e) d.0) in
    (
      none_yet,
      (λ k c. subst (λ z. Off host z k) (sym stays) (own k c), all),
      λ name n. kept name n.1 ∙ others name n.0,
    )
