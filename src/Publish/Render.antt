-- ===== src/Publish/Render.antt =====
-- internal/publish/publish.go, Render: a validated sample as the platform expects it. The texts of
-- numbers and times are those of Go's strconv and time, whose functions are an argument.
use omnistat.Prelude.{ℕ, Bytes, bytes_Eq, Map, lookup, [], Option, none, some}
use omnistat.Manifest.{Kind}
use omnistat.Values.{Value, NumType}
use omnistat.Collect.Sample.{Sample}
use omnistat.Settle.{Result, ok, err}
use omnistat.Publish.Types.{Rendered, text, flag}

-- FormatFloat(v, 'f', -1, 64), and Format of the UTC time by "2006-01-02" and by RFC3339.
pub record Formats : Type 0 where
  pub number : ℕ → Bytes
  pub date : ℕ → Bytes
  pub datetime : ℕ → Bytes

pub data RenderError : Type 0 where
  wrong_type unknown_kind : RenderError
  no_item : Bytes → RenderError

abbrev pub or_empty_map : Option (Map Bytes Bytes) → Map Bytes Bytes
or_empty_map none = []
or_empty_map (some m) = m

item : Bytes → Option Bytes → Result RenderError Rendered
item v none = err (no_item v)
item v (some id) = ok (text id)

unfoldable pub render_value :
    Formats → Map Bytes (Map Bytes Bytes) → Bytes → Kind → Value → Result RenderError Rendered
unfolding item
render_value f items slug Kind.text (Value.str v) = ok (text v)
render_value f items slug Kind.number (Value.num NumType.float64 v) = ok (text (f.number v))
render_value f items slug Kind.metric (Value.num NumType.float64 v) = ok (text (f.number v))
render_value f items slug Kind.boolean (Value.bool v) = ok (flag v)
render_value f items slug Kind.date (Value.time v) = ok (text (f.date v))
render_value f items slug Kind.datetime (Value.time v) = ok (text (f.datetime v))
render_value f items slug Kind.list (Value.str v) =
    item v (lookup v (or_empty_map (lookup slug items)))
render_value f items slug (Kind.other k) v = err unknown_kind
render_value f items slug Kind.reference v = err unknown_kind
render_value f items slug _ _ = err wrong_type

unfoldable pub render : Formats → Map Bytes (Map Bytes Bytes) → Sample → Result RenderError Rendered
unfolding render_value
render f items s = render_value f items s.slug s.kind s.value
