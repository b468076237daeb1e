-- ===== src/Manifest.antt =====
-- internal/manifest/manifest.go and resolve.go: the kinds of attributes, and the attributes and
-- templates that omnistat wants to exist.
pub mod Validate
pub mod Title
pub mod Resolve
use omnistat.Prelude.{Bool, true, false, Bytes, codes, bytes_eq, List, [], ◌∷◌, if◌then◌else◌}

-- `Kind` is a string type in the source: `other` is any string that is none of its constants.
pub data Kind : Type 0 where
  text number boolean date datetime list metric reference : Kind
  other : Bytes → Kind

unfoldable pub is_metric_kind : Kind → Bool
is_metric_kind Kind.metric = true
is_metric_kind _ = false

unfoldable pub is_reference : Kind → Bool
is_reference Kind.reference = true
is_reference _ = false

unfoldable pub is_list : Kind → Bool
is_list Kind.list = true
is_list _ = false

-- The string that the constant stands for.
unfoldable pub kind_name : Kind → Bytes
kind_name Kind.text = codes "text"
kind_name Kind.number = codes "number"
kind_name Kind.boolean = codes "boolean"
kind_name Kind.date = codes "date"
kind_name Kind.datetime = codes "datetime"
kind_name Kind.list = codes "list"
kind_name Kind.metric = codes "metric"
kind_name Kind.reference = codes "reference"
kind_name (Kind.other s) = s

pub record DesiredTemplate : Type 0 where
  pub slug : Bytes
  pub name : Bytes
  pub description : Bytes
  pub entity : Bool
  pub module_name : Bytes
  pub key : Bytes

pub record DesiredAttribute : Type 0 where
  pub slug : Bytes
  pub name : Bytes
  pub description : Bytes
  pub kind : Kind
  pub options : List Bytes
  pub templates : List Bytes
  pub module_name : Bytes
  pub key : Bytes
  pub platforms : List Bytes
  pub entity_template : Bytes
  pub target : Bytes
  pub display : Bytes

pub record Desired : Type 0 where
  pub host : Bytes
  pub templates : List DesiredTemplate
  pub attributes : List DesiredAttribute

-- The membership loop that the package writes out wherever it looks a string up in a slice.
unfoldable pub contains : Bytes → List Bytes → Bool
contains x [] = false
contains x (y ∷ ys) = if bytes_eq y x then true else contains x ys

-- No declaration means every platform.
unfoldable pub collectable : List Bytes → Bytes → Bool
unfolding contains
collectable [] goos = true
collectable (p ∷ ps) goos = contains goos (p ∷ ps)
