-- ===== src/Collect/Validate/Renders.antt =====
-- internal/collect/validate.go and internal/publish/publish.go: the values that Validate accepts,
-- and Render on them.
use omnistat.Prelude.{
  ℕ, Bool, true, Bytes, bytes_Eq, Map, lookup, List, none, ◌≡◌, ◌≢◌, refl, arith, Bool-cases,
  Option-cases, inl, inr, ◌==◌,
}
use omnistat.Settle.{ok}
use omnistat.Manifest.{Kind, DesiredAttribute, is_list, contains}
use omnistat.Values.{Value, NumType, to_float, is_finite}
use omnistat.Collect.Validate.{
  validate_number, validate_time, validate_option, validate_kind, validate,
}
use omnistat.Publish.Types.{Rendered, text, flag}
use omnistat.Publish.Render.{Formats, render_value, or_empty_map}

abbrev pub IsText : Value → Type 0
IsText w = (s : Bytes) × (w ≡ Value.str s)

abbrev pub IsNumber : Value → Type 0
IsNumber w = (b : ℕ) × (w ≡ Value.num NumType.float64 b) × (is_finite b ≡ true)

abbrev pub IsTime : Value → Type 0
IsTime w = (t : ℕ) × (w ≡ Value.time t) × (t ≢ 0)

-- The canonical values of a kind.
abbrev pub Canonical : Kind → List Bytes → Value → Type 0
Canonical Kind.text options w = IsText w
Canonical Kind.number options w = IsNumber w
Canonical Kind.metric options w = IsNumber w
Canonical Kind.boolean options w = (b : Bool) × (w ≡ Value.bool b)
Canonical Kind.date options w = IsTime w
Canonical Kind.datetime options w = IsTime w
Canonical Kind.list options w = (s : Bytes) × (w ≡ Value.str s) × (contains s options ≡ true)
Canonical Kind.reference options w = ⊥
Canonical (Kind.other k) options w = ⊥

number_lem : (v w : Value) → validate_number v ≡ ok w → IsNumber w
unfolding validate_number
number_lem (Value.num t b) w h = elim (Bool-cases (is_finite (to_float t b))) [
  | inl e ↦ (to_float t b, ground (arith, h, e), e)
  | inr e ↦ absurd (ground (arith, h, e))
]
number_lem Value.null w h = cc
number_lem (Value.str s) w h = cc
number_lem (Value.bool b) w h = cc
number_lem (Value.time t) w h = cc
number_lem Value.unknown w h = cc

time_lem : (v w : Value) → validate_time v ≡ ok w → IsTime w
unfolding validate_time
time_lem (Value.time t) w h = elim (Bool-cases (t == 0)) [
  | inl e ↦ absurd (ground (arith, h, e))
  | inr e ↦ (t, ground (arith, h, e), λ z. ground (arith, e, z))
]
time_lem Value.null w h = cc
time_lem (Value.str s) w h = cc
time_lem (Value.bool b) w h = cc
time_lem (Value.num t b) w h = cc
time_lem Value.unknown w h = cc

option_lem :
    (options : List Bytes) (v w : Value)
    → validate_option options v ≡ ok w
    → (s : Bytes) × (w ≡ Value.str s) × (contains s options ≡ true)
unfolding validate_option
option_lem options (Value.str s) w h = elim (Bool-cases (contains s options)) [
  | inl e ↦ (s, ground (arith, h, e), e)
  | inr e ↦ absurd (ground (arith, h, e))
]
option_lem options Value.null w h = cc
option_lem options (Value.time t) w h = cc
option_lem options (Value.bool b) w h = cc
option_lem options (Value.num t b) w h = cc
option_lem options Value.unknown w h = cc

kind_lem :
    (k : Kind) (options : List Bytes) (v w : Value)
    → validate_kind k options v ≡ ok w
    → Canonical k options w
unfolding validate_kind
kind_lem k options Value.null w h = cc
kind_lem Kind.text options (Value.str s) w h = (s, ground (arith, h))
kind_lem Kind.boolean options (Value.bool b) w h = (b, ground (arith, h))
kind_lem Kind.number options v w h = number_lem v w h
kind_lem Kind.metric options v w h = number_lem v w h
kind_lem Kind.date options v w h = time_lem v w h
kind_lem Kind.datetime options v w h = time_lem v w h
kind_lem Kind.list options v w h = option_lem options v w h
kind_lem Kind.reference options v w h = cc
kind_lem (Kind.other k) options v w h = cc
kind_lem Kind.text options _ w h = cc
kind_lem Kind.boolean options _ w h = cc

-- An accepted value is one of the canonical values of the attribute's kind.
pub validate-Canonical :
    (a : DesiredAttribute) (v w : Value) → validate a v ≡ ok w → Canonical a.kind a.options w
unfolding validate
validate-Canonical a v w h = kind_lem a.kind a.options v w h

Canonical-renders :
    (f : Formats) (items : Map Bytes (Map Bytes Bytes)) (slug : Bytes) (k : Kind)
    (options : List Bytes) (w : Value)
    → Canonical k options w
    → ((o : Bytes)
        → is_list k ≡ true
        → contains o options ≡ true
        → lookup o (or_empty_map (lookup slug items)) ≢ none)
    → (r : Rendered) × (render_value f items slug k w ≡ ok r)
unfolding render_value
Canonical-renders f items slug Kind.text options w (s, e) known = (text s, rw e refl)
Canonical-renders f items slug Kind.number options w (b, e, _) known =
    (text (f.number b), rw e refl)
Canonical-renders f items slug Kind.metric options w (b, e, _) known =
    (text (f.number b), rw e refl)
Canonical-renders f items slug Kind.boolean options w (b, e) known = (flag b, rw e refl)
Canonical-renders f items slug Kind.date options w (t, e, _) known = (text (f.date t), rw e refl)
Canonical-renders f items slug Kind.datetime options w (t, e, _) known =
    (text (f.datetime t), rw e refl)
Canonical-renders f items slug Kind.list options w (s, e, has) known =
    elim (Option-cases (lookup s (or_empty_map (lookup slug items)))) [
      | inl missing ↦ absurd (known s (unfold is_list in refl) has missing)
      | inr (id, found) ↦ (text id, rw e (ground (arith, found)))
    ]
Canonical-renders f items slug Kind.reference options w c known = absurd c
Canonical-renders f items slug (Kind.other k) options w c known = absurd c

-- A value that Validate accepted is rendered without an error, for a list if every option has an
-- item.
pub validate-renders :
    (f : Formats) (items : Map Bytes (Map Bytes Bytes)) (a : DesiredAttribute) (v w : Value)
    → validate a v ≡ ok w
    → ((o : Bytes)
        → is_list a.kind ≡ true
        → contains o a.options ≡ true
        → lookup o (or_empty_map (lookup a.slug items)) ≢ none)
    → (r : Rendered) × (render_value f items a.slug a.kind w ≡ ok r)
validate-renders f items a v w h known =
    Canonical-renders f items a.slug a.kind a.options w (validate-Canonical a v w h) known
