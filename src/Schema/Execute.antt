-- ===== src/Schema/Execute.antt =====
-- internal/schema/apply.go: what is resolved, and one action of a plan.
use omnistat.Prelude.{
  Bool, true, false, ◌&&◌, ◌||◌, Bytes, bytes_lt, bytes_Eq, Map, lookup, insert, List, [], ◌∷◌,
  ◌++◌, Option, none, some, if◌then◌else◌, sort,
}
use omnistat.Settle.{Result, ok, err}
use omnistat.Manifest.{is_reference, contains}
use omnistat.Schema.Types.{
  CurrentTemplate, CurrentAttribute, Current, create_template, create_attribute, add_list_option,
  bind_attribute, Action, Resolved, or_empty, ApiError, CreateAttributeParams, Api,
}

pub data ExecuteError : Type 0 where
  order_violated : Bytes → ExecuteError
  api_error : ApiError → ExecuteError

unfoldable pub template_ids_of : Map Bytes CurrentTemplate → Map Bytes Bytes → Map Bytes Bytes
template_ids_of [] m = m
template_ids_of ((slug, t) ∷ ts) m = template_ids_of ts (insert slug t.id m)

unfoldable pub attribute_ids_of : Map Bytes CurrentAttribute → Map Bytes Bytes → Map Bytes Bytes
attribute_ids_of [] m = m
attribute_ids_of ((slug, a) ∷ rest) m = attribute_ids_of rest (insert slug a.id m)

unfoldable pub list_items_of :
    Map Bytes CurrentAttribute → Map Bytes (Map Bytes Bytes) → Map Bytes (Map Bytes Bytes)
list_items_of [] m = m
list_items_of ((slug, a) ∷ rest) m = elim a.option_ids [
  | [] ↦ list_items_of rest m
  | o ∷ os ↦ list_items_of rest (insert slug (o ∷ os) m)
]

unfoldable pub resolved_from : Current → Resolved
resolved_from cur = record {
  templates = template_ids_of cur.templates [];
  attributes = attribute_ids_of cur.attributes [];
  list_items = list_items_of cur.attributes [];
}

-- `for k, v := range own { read[k] = v }`
unfoldable pub overlay {ℓ} : {V : Type ℓ} → Map Bytes V → Map Bytes V → Map Bytes V
overlay [] read = read
overlay ((k, v) ∷ own) read = overlay own (insert k v read)

unfoldable pub overlay_items :
    Map Bytes (Map Bytes Bytes) → Map Bytes (Map Bytes Bytes) → Map Bytes (Map Bytes Bytes)
overlay_items [] read = read
overlay_items ((slug, items) ∷ own) read =
    overlay_items own (insert slug (overlay items (or_empty (lookup slug read))) read)

unfoldable pub merge : Resolved → Resolved → Resolved
merge read own = record {
  templates = overlay own.templates read.templates;
  attributes = overlay own.attributes read.attributes;
  list_items = overlay_items own.list_items read.list_items;
}

unfoldable pub exists : Current → Action → Bool
exists cur a = elim a.action_type [
  | create_template ↦ elim (lookup a.template cur.templates) [ none ↦ false | some _ ↦ true ]
  | create_attribute ↦ elim (lookup a.attribute cur.attributes) [ none ↦ false | some _ ↦ true ]
  | add_list_option ↦ elim (lookup a.attribute cur.attributes) [
    | none ↦ false
    | some attr ↦ contains a.option attr.options
  ]
  | bind_attribute ↦ elim (lookup a.template cur.templates) [
    | none ↦ false
    | some tpl ↦ elim (lookup a.attribute cur.attributes) [
      | none ↦ false
      | some attr ↦ contains attr.id tpl.attribute_ids
    ]
  ]
]

-- r[slug] where a missing key reads as the empty string.
abbrev pub or_blank : Option Bytes → Bytes
or_blank none = []
or_blank (some id) = id

abbrev pub is_blank : Bytes → Bool
is_blank [] = true
is_blank (b ∷ bs) = false

-- The ids of templates by their slugs, or the first slug that has none.
unfoldable pub ids_of : Map Bytes Bytes → List Bytes → Result Bytes (List Bytes)
ids_of m [] = ok []
ids_of m (slug ∷ slugs) = elim (lookup slug m) [
  | none ↦ err slug
  | some id ↦ elim (ids_of m slugs) [ err e ↦ err e | ok ids ↦ ok (id ∷ ids) ]
]

-- An attribute that has an id: the action's own, or the one learned when it was created.
unfoldable pub attribute_id_of : Action → Resolved → Bytes
attribute_id_of a r =
    if is_blank a.attribute_id then or_blank (lookup a.attribute r.attributes) else a.attribute_id

unfoldable pub with_item : Action → Bytes → Resolved → Resolved
with_item a item r = record r {
  list_items =
      insert a.attribute (insert a.option item (or_empty (lookup a.attribute r.list_items)))
        r.list_items;
}

-- The full list of templates that a bind sets.
unfoldable pub bind_ids : List Bytes → Bytes → List Bytes
bind_ids ids id = sort bytes_lt (if contains id ids then ids else ids ++ id ∷ [])

unfoldable pub attribute_params : Action → List Bytes → Resolved → CreateAttributeParams
attribute_params a ids r = record {
  slug = a.attribute;
  name = a.name;
  description = a.description;
  kind = a.kind;
  template_ids = ids;
  ref_template_id = if is_reference a.kind then or_blank (lookup a.target r.templates) else [];
  ref_display_id = if is_reference a.kind then or_blank (lookup a.display r.attributes) else [];
}

-- A reference needs the ids of its target and of its display attribute.
unfoldable pub lacks_reference : CreateAttributeParams → Bool
lacks_reference p = is_reference p.kind && (is_blank p.ref_template_id || is_blank p.ref_display_id)

module _ {S : Type 0} (api : Api S) where
  unfoldable pub execute_template : Action → Resolved → S → Option ExecuteError × (Resolved × S)
  execute_template a r s =
      let (answer, s') =
        api.create_template
          (record { slug = a.template; name = a.name; description = a.description }) s in
      elim answer [
        | err e ↦ (some (api_error e), (r, s'))
        | ok id ↦ (none, (record r { templates = insert a.template id r.templates }, s'))
      ]

  unfoldable pub create_with :
      Action → CreateAttributeParams → Resolved → S → Option ExecuteError × (Resolved × S)
  create_with a params r s =
      let (answer, s') = api.create_attribute params s in
      if lacks_reference params then (some (order_violated a.attribute), (r, s)) else elim answer [
        | err e ↦ (some (api_error e), (r, s'))
        | ok id ↦ (none, (record r { attributes = insert a.attribute id r.attributes }, s'))
      ]

  unfoldable pub execute_attribute : Action → Resolved → S → Option ExecuteError × (Resolved × S)
  execute_attribute a r s = elim (ids_of r.templates a.templates) [
    | err slug ↦ (some (order_violated slug), (r, s))
    | ok ids ↦ create_with a (attribute_params a ids r) r s
  ]

  unfoldable pub execute_option : Action → Resolved → S → Option ExecuteError × (Resolved × S)
  execute_option a r s =
      let (answer, s') = api.add_list_option (attribute_id_of a r) a.option s in
      if is_blank (attribute_id_of a r)
      then (some (order_violated a.attribute), (r, s))
      else elim answer [
        | err e ↦ (some (api_error e), (r, s'))
        | ok item ↦ (none, (with_item a item r, s'))
      ]

  unfoldable pub execute_bind : Action → Resolved → S → Option ExecuteError × (Resolved × S)
  execute_bind a r s = elim (lookup a.template r.templates) [
    | none ↦ (some (order_violated a.template), (r, s))
    | some id ↦
        let (answer, s') = api.bind_attribute a.attribute_id (bind_ids a.template_ids id) s in
        elim answer [ err e ↦ (some (api_error e), (r, s')) | ok _ ↦ (none, (r, s')) ]
  ]

  unfoldable pub execute : Action → Resolved → S → Option ExecuteError × (Resolved × S)
  execute a r s = elim a.action_type [
    | create_template ↦ execute_template a r s
    | create_attribute ↦ execute_attribute a r s
    | add_list_option ↦ execute_option a r s
    | bind_attribute ↦ execute_bind a r s
  ]
