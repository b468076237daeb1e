-- ===== src/Collect/Validate.antt =====
-- internal/collect/validate.go, Validate: the canonical type of each attribute kind.
pub mod Renders
use omnistat.Prelude.{
  ℕ, Bool, true, false, Bytes, List, [], ◌∷◌, Option, none, some, ◌==◌, if◌then◌else◌,
}
use omnistat.Settle.{Result, ok, err}
use omnistat.Manifest.{Kind, DesiredAttribute, contains}
use omnistat.Values.{Value, NumType, to_float, is_finite}

pub data ValidateError : Type 0 where
  nil_value wrong_type not_finite zero_time not_an_option unknown_kind : ValidateError

unfoldable pub validate_number : Value → Result ValidateError Value
validate_number (Value.num t b) =
    if is_finite (to_float t b)
    then ok (Value.num NumType.float64 (to_float t b))
    else err not_finite
validate_number _ = err wrong_type

unfoldable pub validate_time : Value → Result ValidateError Value
validate_time (Value.time t) = if t == 0 then err zero_time else ok (Value.time t)
validate_time _ = err wrong_type

unfoldable pub validate_option : List Bytes → Value → Result ValidateError Value
validate_option options (Value.str s) =
    if contains s options then ok (Value.str s) else err not_an_option
validate_option options _ = err wrong_type

unfoldable pub validate_kind : Kind → List Bytes → Value → Result ValidateError Value
unfolding validate_number validate_time validate_option
validate_kind k options Value.null = err nil_value
validate_kind Kind.text options (Value.str s) = ok (Value.str s)
validate_kind Kind.number options v = validate_number v
validate_kind Kind.metric options v = validate_number v
validate_kind Kind.boolean options (Value.bool b) = ok (Value.bool b)
validate_kind Kind.date options v = validate_time v
validate_kind Kind.datetime options v = validate_time v
validate_kind Kind.list options v = validate_option options v
validate_kind Kind.reference options v = err unknown_kind
validate_kind (Kind.other k) options v = err unknown_kind
validate_kind _ options _ = err wrong_type

unfoldable pub validate : DesiredAttribute → Value → Result ValidateError Value
unfolding validate_kind
validate a v = validate_kind a.kind a.options v
