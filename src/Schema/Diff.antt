-- ===== src/Schema/Diff.antt =====
-- internal/schema/diff.go: the additive plan that turns a project's schema into the desired one.
pub mod Bound
pub mod Holds
pub mod InPlace
pub mod Additive
pub mod Ordered
use omnistat.Prelude.{
  ℕ, Bool, true, false, not, ◌&&◌, Bytes, codes, bytes_eq, bytes_lt, bytes_Eq, Map, lookup, insert,
  List, [], ◌∷◌, ◌++◌, map, Option, none, some, if◌then◌else◌, sort,
}
use omnistat.Manifest.{
  Kind, kind_name, is_reference, is_list, DesiredTemplate, DesiredAttribute, Desired, contains,
}
use omnistat.Schema.Types.{
  CurrentTemplate, CurrentAttribute, Current, type_of, create_template, create_attribute,
  add_list_option, bind_attribute, Action, blank, Conflict, Plan,
}

abbrev pub or_nothing : Option (List Bytes) → List Bytes
or_nothing none = []
or_nothing (some xs) = xs

-- Attribute id → ids of the templates that list it.
unfoldable pub add_bound : Bytes → List Bytes → Map Bytes (List Bytes) → Map Bytes (List Bytes)
add_bound id [] m = m
add_bound id (a ∷ rest) m = add_bound id rest (insert a (or_nothing (lookup a m) ++ id ∷ []) m)

unfoldable pub bound_to :
    Map Bytes CurrentTemplate → Map Bytes (List Bytes) → Map Bytes (List Bytes)
bound_to [] m = m
bound_to ((slug, t) ∷ ts) m = bound_to ts (add_bound t.id t.attribute_ids m)

unfoldable pub create_templates : Current → List DesiredTemplate → List Action
create_templates cur [] = []
create_templates cur (t ∷ ts) =
    let rest = create_templates cur ts in
    elim (lookup t.slug cur.templates) [
      | some _ ↦ rest
      | none ↦
          record (blank create_template) {
            template = t.slug;
            name = t.name;
            description = t.description;
          }
          ∷ rest
    ]

-- What the loop over the attributes appends to the plan and to its local lists.
pub record Draft : Type 0 where
  pub actions : List Action
  pub refs : List Action
  pub options : List Action
  pub binds : List Action
  pub conflicts : List Conflict

abbrev pub no_draft : Draft
no_draft = record { actions = []; refs = []; options = []; binds = []; conflicts = [] }

abbrev pub both : Draft → Draft → Draft
both d e = record {
  actions = d.actions ++ e.actions;
  refs = d.refs ++ e.refs;
  options = d.options ++ e.options;
  binds = d.binds ++ e.binds;
  conflicts = d.conflicts ++ e.conflicts;
}

abbrev pub create : DesiredAttribute → Action
create a = record (blank create_attribute) {
  attribute = a.slug;
  name = a.name;
  description = a.description;
  kind = a.kind;
  templates = sort bytes_lt a.templates;
  module_name = a.module_name;
  target = a.target;
  display = a.display;
}

-- The attribute id is empty until the attribute is created.
abbrev pub add_option : DesiredAttribute → Bytes → Bytes → Action
add_option a id option = record (blank add_list_option) {
  attribute = a.slug;
  attribute_id = id;
  option = option;
  module_name = a.module_name;
}

abbrev pub bind : DesiredAttribute → Bytes → Bytes → List Bytes → Action
bind a id template ids = record (blank bind_attribute) {
  attribute = a.slug;
  attribute_id = id;
  template = template;
  template_ids = ids;
  module_name = a.module_name;
}

unfoldable pub plan_new : DesiredAttribute → Draft
plan_new a =
    if is_reference a.kind
    then record no_draft { refs = create a ∷ [] }
    else record no_draft { actions = create a ∷ []; options = map (add_option a []) a.options }

-- "reference → ", with the arrow in UTF-8.
abbrev reference_to : Bytes → Bytes
reference_to slug = codes "reference " ++ 226 ∷ 134 ∷ 146 ∷ codes " " ++ slug

-- The slug of a template by its id, for a message.
unfoldable pub template_slug_of : Map Bytes CurrentTemplate → Bytes → Bytes
template_slug_of [] [] = codes "(none)"
template_slug_of [] (b ∷ bs) = b ∷ bs
template_slug_of ((slug, t) ∷ ts) id = if bytes_eq t.id id then slug else template_slug_of ts id

unfoldable pub points_at_target : Current → DesiredAttribute → CurrentAttribute → Bool
points_at_target cur a existing = elim (lookup a.target cur.templates) [
  | none ↦ false
  | some tpl ↦ bytes_eq existing.ref_template_id tpl.id
]

unfoldable pub missing_options : DesiredAttribute → CurrentAttribute → List Bytes → List Action
missing_options a existing [] = []
missing_options a existing (o ∷ os) =
    let rest = missing_options a existing os in
    if contains o existing.options then rest else add_option a existing.id o ∷ rest

-- The binding of an existing attribute to one template, with the bindings that it has.
unfoldable pub plan_bind :
    Current → List Bytes → DesiredAttribute → CurrentAttribute → Bytes → List Action
plan_bind cur ids a existing slug = elim (lookup slug cur.templates) [
  | none ↦ bind a existing.id slug ids ∷ []
  | some tpl ↦
      if contains tpl.id ids
      then []
      else bind a existing.id slug (sort bytes_lt (ids ++ tpl.id ∷ [])) ∷ []
]

unfoldable pub plan_binds :
    Current → List Bytes → DesiredAttribute → CurrentAttribute → List Bytes → List Action
plan_binds cur ids a existing [] = []
plan_binds cur ids a existing (t ∷ ts) =
    plan_bind cur ids a existing t ++ plan_binds cur ids a existing ts

unfoldable pub wrong_type : DesiredAttribute → CurrentAttribute → Conflict
wrong_type a existing = record {
  slug = a.slug;
  module_name = a.module_name;
  expected = kind_name a.kind;
  actual = existing.type_name;
}

unfoldable pub wrong_target : Current → DesiredAttribute → CurrentAttribute → Conflict
wrong_target cur a existing = record {
  slug = a.slug;
  module_name = a.module_name;
  expected = reference_to a.target;
  actual = reference_to (template_slug_of cur.templates existing.ref_template_id);
}

unfoldable pub plan_existing :
    Current → Map Bytes (List Bytes) → DesiredAttribute → CurrentAttribute → Draft
plan_existing cur bound a existing =
    if not (bytes_eq existing.type_name (type_of a.kind))
    then record no_draft { conflicts = wrong_type a existing ∷ [] }
    else if is_reference a.kind && not (points_at_target cur a existing)
    then record no_draft { conflicts = wrong_target cur a existing ∷ [] }
    else record no_draft {
      options = if is_list a.kind then missing_options a existing a.options else [];
      binds =
          plan_binds cur (sort bytes_lt (or_nothing (lookup existing.id bound))) a existing
            a.templates;
    }

unfoldable pub plan_attribute : Current → Map Bytes (List Bytes) → DesiredAttribute → Draft
plan_attribute cur bound a = elim (lookup a.slug cur.attributes) [
  | none ↦ plan_new a
  | some existing ↦ plan_existing cur bound a existing
]

unfoldable pub plan_attributes : Current → Map Bytes (List Bytes) → List DesiredAttribute → Draft
plan_attributes cur bound [] = no_draft
plan_attributes cur bound (a ∷ rest) =
    both (plan_attribute cur bound a) (plan_attributes cur bound rest)

abbrev pub template_lt : DesiredTemplate → DesiredTemplate → Bool
template_lt s t = bytes_lt s.slug t.slug

abbrev pub attribute_lt : DesiredAttribute → DesiredAttribute → Bool
attribute_lt s t = bytes_lt s.slug t.slug

abbrev pub bind_lt : Action → Action → Bool
bind_lt s t =
    if bytes_eq s.attribute t.attribute
    then bytes_lt s.template t.template
    else bytes_lt s.attribute t.attribute

abbrev pub conflict_lt : Conflict → Conflict → Bool
conflict_lt s t = bytes_lt s.slug t.slug

unfoldable pub diff : Desired → Current → Plan
diff d cur =
    let out = plan_attributes cur (bound_to cur.templates []) (sort attribute_lt d.attributes) in
    record {
      actions =
          create_templates cur (sort template_lt d.templates)
          ++ (out.actions ++ (out.refs ++ (out.options ++ sort bind_lt out.binds)));
      conflicts = sort conflict_lt out.conflicts;
    }
