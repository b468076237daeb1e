-- ===== src/Systemd/EnvFile.antt =====
-- internal/systemd/envfile.go: the settings of the service as a systemd environment file.
pub mod Values
pub mod Lines
pub mod RoundTrip
use omnistat.Prelude.{
  ℕ, suc, Bool, true, false, ◌&&◌, ◌||◌, not, Bytes, bytes_lt, bytes_Eq, Map, codes, lookup, insert,
  List, [], ◌∷◌, ◌++◌, map, Option, none, some, ◌==◌, if◌then◌else◌, take, length, sort,
}
use omnistat.Runes.{within}
use omnistat.Runes.Trim.{is_blank, trim_blanks, trim_return, trim_space}
use omnistat.Settle.{Result, ok, err}

-- `envHeader`
abbrev pub header_lines : List Bytes
header_lines =
    codes "# Settings of the omnistat service, written by `omnistat service install`."
    ∷ codes "# Readable by root only: it holds the access token. systemd passes these to the"
    ∷ codes "# service as its environment. Install rewrites this file, keeping each setting"
    ∷ codes "# it is not given again. Restart the service after editing it by hand."
    ∷ []

name_start : ℕ → Bool
name_start c = within b'A' b'Z' c || (within b'a' b'z' c || (c == b'_'))

unfoldable pub name_char : ℕ → Bool
unfolding name_start
name_char c = name_start c || within b'0' b'9' c

unfoldable pub all_name_chars : Bytes → Bool
unfolding name_char
all_name_chars [] = true
all_name_chars (c ∷ s) = name_char c && all_name_chars s

-- `envName`
unfoldable pub valid_name : Bytes → Bool
unfolding name_start all_name_chars
valid_name [] = false
valid_name (c ∷ s) = name_start c && all_name_chars s

unfoldable pub has_byte : ℕ → Bytes → Bool
has_byte b [] = false
has_byte b (c ∷ s) = (c == b) || has_byte b s

-- A value that systemd cannot hold on one line.
unfoldable pub has_break : Bytes → Bool
unfolding has_byte
has_break v = has_byte b'\n' v || (has_byte b'\r' v || has_byte 0 v)

-- The characters that a backslash escapes between double quotes.
unfoldable pub is_special : ℕ → Bool
is_special c = (c == b'"') || ((c == b'\\') || ((c == b'`') || (c == b'$')))

unfoldable pub escaped : Bytes → Bytes
unfolding is_special
escaped [] = []
escaped (c ∷ s) = let rest = escaped s in if is_special c then b'\\' ∷ c ∷ rest else c ∷ rest

-- A value between the quotes that it needs.
unfoldable pub quoted : Bytes → Bytes
unfolding escaped has_byte
quoted v = if has_byte b'\'' v then b'"' ∷ (escaped v ++ b'"' ∷ []) else b'\'' ∷ (v ++ b'\'' ∷ [])

pub data FormatError : Type 0 where
  bad_name line_break : Bytes → FormatError

-- `env[k]` of a key that is not there is empty.
or_empty : Option Bytes → Bytes
or_empty none = []
or_empty (some v) = v

unfoldable pub terminated : List Bytes → Bytes
terminated [] = []
terminated (l ∷ ls) = l ++ b'\n' ∷ terminated ls

-- The lines of the settings, in the order of the keys given.
unfoldable pub format_lines : Map Bytes Bytes → List Bytes → Result FormatError (List Bytes)
unfolding or_empty valid_name has_break quoted
format_lines env [] = ok []
format_lines env (k ∷ ks) =
    let v = or_empty (lookup k env) in
    elim (valid_name k) [
      | false ↦ err (bad_name k)
      | true ↦ elim (has_break v) [
        | true ↦ err (line_break k)
        | false ↦ elim (format_lines env ks) [
          | err e ↦ err e
          | ok ls ↦ ok ((k ++ b'=' ∷ quoted v) ∷ ls)
        ]
      ]
    ]

abbrev pub keys : Map Bytes Bytes → List Bytes
keys env = map (λ e. e.0) env

-- `FormatEnv`
unfoldable pub format_env : Map Bytes Bytes → Result FormatError Bytes
unfolding format_lines terminated
format_env env = elim (format_lines env (sort bytes_lt (keys env))) [
  | err e ↦ err e
  | ok ls ↦ ok (terminated (header_lines ++ ls))
]

pub data ValueError : Type 0 where
  unterminated_single unterminated_double line_continuation : ValueError

-- Where `parseValue` stands: outside quotes, after a backslash there, or inside quotes.
pub data Mode : Type 0 where
  outside backslash single_quoted double_quoted double_backslash : Mode

-- `keep` bytes of `out` are not to be dropped as trailing blanks; `quotes` tells that a quote
-- opens a quoted part.
pub record Reader : Type 0 where
  pub mode : Mode
  pub out : Bytes
  pub keep : ℕ
  pub quotes : Bool

abbrev kept : Bytes → Bool → Reader
kept out quotes = record { mode = outside; out = out; keep = length out; quotes = quotes }

abbrev append : Mode → Reader → Bytes → Reader
append mode r more = record r { mode = mode; out = r.out ++ more }

step_outside : ℕ → Reader → Reader
step_outside c r =
    if r.quotes && is_blank c
    then r
    else if r.quotes && (c == b'\'')
    then record r { mode = single_quoted }
    else if r.quotes && (c == b'"')
    then record r { mode = double_quoted }
    else if c == b'\\'
    then record r { mode = backslash }
    else if is_blank c
    then record (append outside r (c ∷ [])) { quotes = false }
    else kept (r.out ++ c ∷ []) false

-- One byte of the value.
unfoldable pub step : ℕ → Reader → Reader
unfolding step_outside is_special
step c r = elim r.mode [
  | outside ↦ step_outside c r
  | backslash ↦ kept (r.out ++ c ∷ []) false
  | single_quoted ↦ if c == b'\'' then kept r.out r.quotes else append single_quoted r (c ∷ [])
  | double_quoted ↦
      if c == b'"'
      then kept r.out r.quotes
      else if c == b'\\'
      then record r { mode = double_backslash }
      else append double_quoted r (c ∷ [])
  | double_backslash ↦
      if is_special c
      then append double_quoted r (c ∷ [])
      else append double_quoted r (b'\\' ∷ c ∷ [])
]

finish : Reader → Result ValueError Bytes
finish r = elim r.mode [
  | outside ↦ ok (take r.keep r.out)
  | backslash ↦ err line_continuation
  | single_quoted ↦ err unterminated_single
  | double_quoted ↦ err unterminated_double
  | double_backslash ↦ err unterminated_double
]

unfoldable pub read : Bytes → Reader → Result ValueError Bytes
unfolding finish step
read [] r = finish r
read (c ∷ s) r = read s (step c r)

-- `parseValue`
unfoldable pub parse_value : Bytes → Result ValueError Bytes
unfolding read
parse_value s = read s (kept [] true)

pub data ParseError : Type 0 where
  no_assignment invalid_name : ParseError
  bad_value : ValueError → ParseError

-- strings.Cut at one byte.
unfoldable pub cut : ℕ → Bytes → Option (Bytes × Bytes)
cut b [] = none
cut b (c ∷ s) =
    let rest = cut b s in
    if c == b then some ([], s) else elim rest [ none ↦ none | some (k, v) ↦ some (c ∷ k, v) ]

-- `parseAssignment`
unfoldable pub parse_assignment : Bytes → Result ParseError (Bytes × Bytes)
unfolding cut trim_space trim_blanks valid_name parse_value
parse_assignment line = elim (cut b'=' line) [
  | none ↦ err no_assignment
  | some (k, raw) ↦ elim (valid_name (trim_space k)) [
    | false ↦ err invalid_name
    | true ↦ elim (parse_value (trim_blanks raw)) [
      | err e ↦ err (bad_value e)
      | ok v ↦ ok (trim_space k, v)
    ]
  ]
]

-- A line that holds no setting.
unfoldable pub is_comment : Bytes → Bool
is_comment [] = true
is_comment (c ∷ s) = (c == b'#') || (c == b';')

-- strings.Split at line breaks.
unfoldable pub split_lines : Bytes → List Bytes
split_lines [] = [] ∷ []
split_lines (c ∷ s) =
    let rest = split_lines s in
    if c == b'\n' then [] ∷ rest else elim rest [ [] ↦ (c ∷ []) ∷ [] | l ∷ ls ↦ (c ∷ l) ∷ ls ]

-- The settings of the lines from number `i` on, added to `env`; an error has its line number.
unfoldable pub parse_lines :
    ℕ → List Bytes → Map Bytes Bytes → Result (ℕ × ParseError) (Map Bytes Bytes)
unfolding trim_blanks trim_return is_comment parse_assignment
parse_lines i [] env = ok env
parse_lines i (l ∷ ls) env =
    let line = trim_blanks (trim_return l) in
    elim (is_comment line) [
      | true ↦ parse_lines (suc i) ls env
      | false ↦ elim (parse_assignment line) [
        | err e ↦ err (i, e)
        | ok (k, v) ↦ parse_lines (suc i) ls (insert k v env)
      ]
    ]

-- `ParseEnv`
unfoldable pub parse_env : Bytes → Result (ℕ × ParseError) (Map Bytes Bytes)
unfolding parse_lines split_lines
parse_env text = parse_lines 1 (split_lines text) []
