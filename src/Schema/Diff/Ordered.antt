-- ===== src/Schema/Diff/Ordered.antt =====
-- internal/schema/diff.go: the order of a plan.
pub mod Drafts
pub mod Grounded
use omnistat.Prelude.{
  All-imp, ◌+◌, ◌≤◌, Bool, true, false, not, ◌&&◌, Bytes, bytes_eq, bytes_eq_iff, bytes_lt,
  bytes_Eq, lookup, List, [], ◌∷◌, ◌++◌, append-nil, append_assoc, map, none, some, ◌≡◌, ◌≢◌, ◌⊎◌,
  refl, sym, subst, arith, sort, All, All-append, All-sort, Bool-cases, Option-cases, inl, inr,
  count_if, count_if-append,
}
use omnistat.Manifest.{is_reference, is_list, DesiredTemplate, DesiredAttribute}
use omnistat.Schema.Types.{
  CurrentAttribute, Current, type_of, ActionType, create_template, create_attribute,
  add_list_option, bind_attribute, Action,
}
use omnistat.Schema.Diff.{
  bound_to, create_templates, Draft, create, add_option, plan_new, points_at_target,
  missing_options, plan_bind, plan_binds, plan_existing, plan_attribute, plan_attributes,
}

-- The action creates the template, or the attribute, of a slug.
unfoldable pub makes_template : Bytes → Action → Bool
makes_template slug a = elim a.action_type [
  | create_template ↦ bytes_eq a.template slug
  | _ ↦ false
]

unfoldable pub makes_attribute : Bytes → Action → Bool
makes_attribute slug a = elim a.action_type [
  | create_attribute ↦ bytes_eq a.attribute slug
  | _ ↦ false
]

abbrev pub HasTemplate : Current → List Action → Bytes → Type 0
HasTemplate cur before slug =
    (lookup slug cur.templates ≢ none) ⊎ (1 ≤ count_if (makes_template slug) before)

abbrev pub HasAttribute : Current → List Action → Bytes → Type 0
HasAttribute cur before slug =
    (lookup slug cur.attributes ≢ none) ⊎ (1 ≤ count_if (makes_attribute slug) before)

-- What an action of a type needs when it is performed after the actions `before`.
abbrev pub Needs : Current → List Action → Action → ActionType → Type 0
Needs cur before a create_template = Unit
Needs cur before a create_attribute =
    All (HasTemplate cur before) a.templates
    × ((is_reference a.kind ≡ true)
        → HasTemplate cur before a.target × HasAttribute cur before a.display)
Needs cur before a add_list_option = HasAttribute cur before a.attribute
Needs cur before a bind_attribute =
    HasTemplate cur before a.template × (lookup a.attribute cur.attributes ≢ none)

abbrev pub Ready : Current → List Action → Action → Type 0
Ready cur before a = Needs cur before a a.action_type

-- Each action is ready after those before it.
abbrev pub Ordered : Current → List Action → List Action → Type 0
Ordered cur before [] = Unit
Ordered cur before (a ∷ rest) = Ready cur before a × Ordered cur (before ++ a ∷ []) rest

module _ (cur : Current) where
  pub grow-HasTemplate :
      (b c : List Action) (slug : Bytes) → HasTemplate cur b slug → HasTemplate cur (b ++ c) slug
  grow-HasTemplate b c slug (inl h) = inl h
  grow-HasTemplate b c slug (inr h) =
      inr (omega (arith, h, count_if-append (makes_template slug) b c))

  pub after-HasTemplate :
      (b c : List Action) (slug : Bytes) → HasTemplate cur c slug → HasTemplate cur (b ++ c) slug
  after-HasTemplate b c slug (inl h) = inl h
  after-HasTemplate b c slug (inr h) =
      inr (omega (arith, h, count_if-append (makes_template slug) b c))

  pub grow-HasAttribute :
      (b c : List Action) (slug : Bytes) → HasAttribute cur b slug → HasAttribute cur (b ++ c) slug
  grow-HasAttribute b c slug (inl h) = inl h
  grow-HasAttribute b c slug (inr h) =
      inr (omega (arith, h, count_if-append (makes_attribute slug) b c))

  pub after-HasAttribute :
      (b c : List Action) (slug : Bytes) → HasAttribute cur c slug → HasAttribute cur (b ++ c) slug
  after-HasAttribute b c slug (inl h) = inl h
  after-HasAttribute b c slug (inr h) =
      inr (omega (arith, h, count_if-append (makes_attribute slug) b c))

  grow-Needs :
      (b c : List Action) (a : Action) (t : ActionType) → Needs cur b a t → Needs cur (b ++ c) a t
  grow-Needs b c a create_template h = tt
  grow-Needs b c a create_attribute (ts, r) = (
    All-imp a.templates (grow-HasTemplate b c) ts,
    λ q. (grow-HasTemplate b c a.target (r q).0, grow-HasAttribute b c a.display (r q).1),
  )
  grow-Needs b c a add_list_option h = grow-HasAttribute b c a.attribute h
  grow-Needs b c a bind_attribute (t, h) = (grow-HasTemplate b c a.template t, h)

  pub grow-Ready : (b c xs : List Action) → All (Ready cur b) xs → All (Ready cur (b ++ c)) xs
  grow-Ready b c xs h = All-imp xs (λ a n. grow-Needs b c a a.action_type n) h

  pub All-Ordered : (b xs : List Action) → All (Ready cur b) xs → Ordered cur b xs
  All-Ordered b [] h = tt
  All-Ordered b (x ∷ xs) h = (h.0, All-Ordered (b ++ x ∷ []) xs (grow-Ready b (x ∷ []) xs h.1))

  pub append-Ordered :
      (b xs ys : List Action)
      → Ordered cur b xs
      → Ordered cur (b ++ xs) ys
      → Ordered cur b (xs ++ ys)
  append-Ordered b [] ys h k = subst (λ z. Ordered cur z ys) (append-nil b) k
  append-Ordered b (x ∷ xs) ys h k = (
    h.0,
    append-Ordered (b ++ x ∷ []) xs ys h.1
        (subst (λ z. Ordered cur z ys) (sym (append_assoc b (x ∷ []) xs)) k),
  )

  -- Templates need nothing.
  pub create_templates-Ready :
      (b : List Action) (ts : List DesiredTemplate) → All (Ready cur b) (create_templates cur ts)
  unfolding create_templates
  create_templates-Ready b [] = tt
  create_templates-Ready b (t ∷ ts) = elim (Option-cases (lookup t.slug cur.templates)) [
    | inl e ↦ rw (e, create_templates) (tt, create_templates-Ready b ts)
    | inr (c, e) ↦ rw (e, create_templates) (create_templates-Ready b ts)
  ]
