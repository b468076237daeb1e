-- ===== src/Schema/Types.antt =====
-- internal/schema/schema.go and api.go: the project's schema, plans, and the platform's calls. `S`
-- is the state of the platform.
use omnistat.Prelude.{
  Bool, true, Bytes, codes, bytes_Eq, Map, lookup, insert, List, [], ◌∷◌, Option, none, some,
}
use omnistat.Manifest.{Kind, kind_name}
use omnistat.Settle.{Result}

pub record CurrentTemplate : Type 0 where
  pub id : Bytes
  pub slug : Bytes
  pub name : Bytes
  pub attribute_ids : List Bytes

pub record CurrentAttribute : Type 0 where
  pub id : Bytes
  pub slug : Bytes
  pub name : Bytes
  pub type_name : Bytes
  pub options : List Bytes
  pub option_ids : Map Bytes Bytes
  pub ref_template_id : Bytes

pub record Current : Type 0 where
  pub templates : Map Bytes CurrentTemplate
  pub attributes : Map Bytes CurrentAttribute

unfoldable pub type_of : Kind → Bytes
type_of Kind.text = codes "string"
type_of k = kind_name k

-- The type is an int in the source, and a plan has these four values of it only.
pub data ActionType : Type 0 where
  create_template create_attribute add_list_option bind_attribute : ActionType

pub record Action : Type 0 where
  pub action_type : ActionType
  pub template : Bytes
  pub attribute : Bytes
  pub name : Bytes
  pub description : Bytes
  pub kind : Kind
  pub templates : List Bytes
  pub option : Bytes
  pub target : Bytes
  pub display : Bytes
  pub module_name : Bytes
  pub attribute_id : Bytes
  pub template_ids : List Bytes

-- The zero values of the fields that an action's type does not use.
abbrev pub blank : ActionType → Action
blank t = record {
  action_type = t;
  template = [];
  attribute = [];
  name = [];
  description = [];
  kind = Kind.other [];
  templates = [];
  option = [];
  target = [];
  display = [];
  module_name = [];
  attribute_id = [];
  template_ids = [];
}

unfoldable pub slug_of : Action → Bytes
slug_of a = elim a.action_type [ create_template ↦ a.template | _ ↦ a.attribute ]

pub record Conflict : Type 0 where
  pub slug : Bytes
  pub module_name : Bytes
  pub expected : Bytes
  pub actual : Bytes

pub record Plan : Type 0 where
  pub actions : List Action
  pub conflicts : List Conflict

pub record Resolved : Type 0 where
  pub templates : Map Bytes Bytes
  pub attributes : Map Bytes Bytes
  pub list_items : Map Bytes (Map Bytes Bytes)

abbrev pub or_empty {ℓ} : {V : Type ℓ} → Option (Map Bytes V) → Map Bytes V
or_empty none = []
or_empty (some m) = m

-- The options that a plan would add.
unfoldable pub pending_options :
    List Action → Map Bytes (Map Bytes Bool) → Map Bytes (Map Bytes Bool)
pending_options [] out = out
pending_options (a ∷ rest) out = elim a.action_type [
  | add_list_option ↦
      pending_options rest
        (insert a.attribute (insert a.option true (or_empty (lookup a.attribute out))) out)
  | _ ↦ pending_options rest out
]

pub data ApiError : Type 0 where
  already_exists : ApiError
  other_error : Bytes → ApiError

pub record CreateTemplateParams : Type 0 where
  pub slug : Bytes
  pub name : Bytes
  pub description : Bytes

pub record CreateAttributeParams : Type 0 where
  pub slug : Bytes
  pub name : Bytes
  pub description : Bytes
  pub kind : Kind
  pub template_ids : List Bytes
  pub ref_template_id : Bytes
  pub ref_display_id : Bytes

pub record Api (S : Type 0) : Type 0 where
  pub read_schema : S → Result ApiError Current × S
  pub create_template : CreateTemplateParams → S → Result ApiError Bytes × S
  pub create_attribute : CreateAttributeParams → S → Result ApiError Bytes × S
  pub add_list_option : Bytes → Bytes → S → Result ApiError Bytes × S
  pub bind_attribute : Bytes → List Bytes → S → Result ApiError (Unit {0}) × S
