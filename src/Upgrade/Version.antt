-- ===== src/Upgrade/Version.antt =====
-- internal/upgrade/version.go: release versions, their text and their order.
pub mod Text
pub mod Parse
pub mod Chains
pub mod Order
use Prim.Native.Nat.{compare, Ordering}
use omnistat.Prelude.{
  ℕ, ◌-◌, Bool, true, false, ◌&&◌, ◌||◌, not, Bytes, bytes_eq, bytes_lt, codes, List, [], ◌∷◌, ◌++◌,
  Option, none, some, leb, ◌==◌, if◌then◌else◌,
}
use omnistat.Runes.{within}
use omnistat.Runes.Trim.{trim_space}
use omnistat.Strconv.{
  ℤ, pos, negsuc, is_digit, itoa, atoi, result, Parsed, number, out_of_range, bad_syntax,
}

pub record Version : Type 0 where
  pub major : ℤ
  pub minor : ℤ
  pub patch : ℤ
  pub pre : Bytes

abbrev is_hex : ℕ → Bool
is_hex c = is_digit c || within b'a' b'f' c

abbrev pub ident_char : ℕ → Bool
ident_char c = is_digit c || (within b'A' b'Z' c || (within b'a' b'z' c || (c == b'-')))

-- The longest run of digits at the front, and the rest.
unfoldable pub span_digits : Bytes → Bytes × Bytes
span_digits [] = ([], [])
span_digits (c ∷ s) =
    let (ds, rest) = span_digits s in if is_digit c then (c ∷ ds, rest) else ([], c ∷ s)

-- 0|[1-9]\d*
unfoldable pub is_numeral : Bytes → Bool
is_numeral [] = false
is_numeral (c ∷ []) = true
is_numeral (c ∷ d ∷ s) = not (c == b'0')

-- [0-9A-Za-z-]+(?:\.[0-9A-Za-z-]+)*, where `need` tells that an identifier has to follow.
unfoldable pub identifiers : Bool → Bytes → Bool
identifiers need [] = not need
identifiers need (c ∷ s) =
    if c == b'.' then not need && identifiers true s else ident_char c && identifiers false s

-- (?:-(…))?$ with the pre-release.
unfoldable pub match_pre : Bytes → Option Bytes
unfolding identifiers
match_pre [] = some []
match_pre (c ∷ s) = if (c == b'-') && identifiers true s then some s else none

unfoldable pub then_dot : Bytes × Bytes → Option (Bytes × Bytes)
unfolding is_numeral
then_dot (ds, []) = none
then_dot (ds, c ∷ s) = if is_numeral ds && (c == b'.') then some (ds, s) else none

-- A numeral followed by a dot, with what comes after.
unfoldable pub match_dotted : Bytes → Option (Bytes × Bytes)
unfolding span_digits then_dot
match_dotted s = then_dot (span_digits s)

unfoldable pub then_pre : Bytes × Bytes → Option (Bytes × Bytes)
unfolding is_numeral match_pre
then_pre (ds, s) = elim (match_pre s) [
  | none ↦ none
  | some p ↦ if is_numeral ds then some (ds, p) else none
]

unfoldable pub match_last : Bytes → Option (Bytes × Bytes)
unfolding span_digits then_pre
match_last s = then_pre (span_digits s)

unfoldable pub match_core : Bytes → Option (Bytes × Bytes × Bytes × Bytes)
unfolding match_dotted match_last
match_core s = elim (match_dotted s) [
  | none ↦ none
  | some (a, s1) ↦ elim (match_dotted s1) [
    | none ↦ none
    | some (b, s2) ↦ elim (match_last s2) [ none ↦ none | some (c, p) ↦ some (a, b, c, p) ]
  ]
]

unfoldable pub strip_v : Bytes → Bytes
strip_v [] = []
strip_v (c ∷ s) = if c == b'v' then s else c ∷ s

-- `semverRE`, with the four groups it finds.
unfoldable pub match_semver : Bytes → Option (Bytes × Bytes × Bytes × Bytes)
unfolding match_core strip_v
match_semver s = match_core (strip_v s)

-- (-dirty)?$ behind at least `need` more characters [0-9a-f]
hash_tail : ℕ → Bytes → Bool
hash_tail need [] = need == 0
hash_tail need (c ∷ s) =
    let rest = hash_tail (need - 1) s in
    if is_hex c then rest else (need == 0) && bytes_eq (c ∷ s) (codes "-dirty")

-- \d+-g[0-9a-f]{4,}(-dirty)?$
describes : Bytes → Bool
unfolding span_digits hash_tail
describes s =
    let (ds, rest) = span_digits s in
    elim ds [
      | [] ↦ false
      | _ ∷ _ ↦ elim rest [
        | [] ↦ false
        | c ∷ r ↦ elim r [ [] ↦ false | g ∷ h ↦ (c == b'-') && ((g == b'g') && hash_tail 4 h) ]
      ]
    ]

-- What `describeRE` looks for, at the start (`here`) or after a dash.
unfoldable pub described : Bool → Bytes → Bool
unfolding describes
described here [] = false
described here (c ∷ s) =
    (here && (describes (c ∷ s) || bytes_eq (c ∷ s) (codes "dirty"))) || described (c == b'-') s

unfoldable pub of_groups : Option (Bytes × Bytes × Bytes × Bytes) → Option Version
unfolding described atoi result
of_groups none = none
of_groups (some (a, b, c, p)) =
    if described true p
    then none
    else some (record {
      major = result (atoi a);
      minor = result (atoi b);
      patch = result (atoi c);
      pre = p;
    })

-- `ParseVersion`
unfoldable pub parse_version : Bytes → Option Version
unfolding trim_space match_semver of_groups
parse_version s = of_groups (match_semver (trim_space s))

unfoldable pub pre_suffix : Bytes → Bytes
pre_suffix [] = []
pre_suffix (c ∷ p) = b'-' ∷ c ∷ p

-- `Version.Number`
unfoldable pub version_number : Version → Bytes
unfolding itoa pre_suffix
version_number v =
    itoa v.major ++ (b'.' ∷ (itoa v.minor ++ (b'.' ∷ (itoa v.patch ++ pre_suffix v.pre))))

-- `Version.String`
unfoldable pub version_string : Version → Bytes
unfolding version_number
version_string v = b'v' ∷ version_number v

-- `cmpInt`
unfoldable pub cmp_int : ℤ → ℤ → Ordering
cmp_int (pos a) (pos b) = compare a b
cmp_int (pos a) (negsuc b) = Ordering.gt
cmp_int (negsuc a) (pos b) = Ordering.lt
cmp_int (negsuc a) (negsuc b) = compare b a

-- strings.Compare
unfoldable pub cmp_bytes : Bytes → Bytes → Ordering
cmp_bytes [] [] = Ordering.eq
cmp_bytes [] (b ∷ t) = Ordering.lt
cmp_bytes (a ∷ s) [] = Ordering.gt
cmp_bytes (a ∷ s) (b ∷ t) =
    let rest = cmp_bytes s t in
    elim (compare a b) [
      | Ordering.lt ↦ Ordering.lt
      | Ordering.eq ↦ rest
      | Ordering.gt ↦ Ordering.gt
    ]

-- The number, if Atoi returns no error.
unfoldable pub number_of : Parsed → Option ℤ
number_of (number n) = some n
number_of (out_of_range n) = none
number_of bad_syntax = none

unfoldable pub cmp_idents : Option ℤ → Option ℤ → Bytes → Bytes → Ordering
unfolding cmp_int cmp_bytes
cmp_idents (some m) (some n) a b = cmp_int m n
cmp_idents (some m) none a b = Ordering.lt
cmp_idents none (some n) a b = Ordering.gt
cmp_idents none none a b = cmp_bytes a b

-- `comparePre`
unfoldable pub compare_pre : Bytes → Bytes → Ordering
unfolding atoi number_of cmp_idents
compare_pre a b = cmp_idents (number_of (atoi a)) (number_of (atoi b)) a b

-- strings.Split(s, ".")
unfoldable pub split_dots : Bytes → List Bytes
split_dots [] = [] ∷ []
split_dots (c ∷ s) =
    let rest = split_dots s in
    if c == b'.' then [] ∷ rest else elim rest [ [] ↦ (c ∷ []) ∷ [] | p ∷ ps ↦ (c ∷ p) ∷ ps ]

-- The first difference decides.
unfoldable pub and_then : Ordering → Ordering → Ordering
and_then Ordering.eq o = o
and_then Ordering.lt _ = Ordering.lt
and_then Ordering.gt _ = Ordering.gt

-- The identifiers in turn; where one list ends, the lengths decide.
unfoldable pub compare_all : List Bytes → List Bytes → Ordering
unfolding compare_pre and_then
compare_all (a ∷ ps) (b ∷ qs) = and_then (compare_pre a b) (compare_all ps qs)
compare_all [] [] = Ordering.eq
compare_all [] (b ∷ qs) = Ordering.lt
compare_all (a ∷ ps) [] = Ordering.gt

unfoldable pub compare_pres : Bytes → Bytes → Ordering
unfolding compare_all split_dots
compare_pres [] [] = Ordering.eq
compare_pres [] (b ∷ q) = Ordering.gt
compare_pres (a ∷ p) [] = Ordering.lt
compare_pres (a ∷ p) (b ∷ q) =
    if bytes_eq (a ∷ p) (b ∷ q)
    then Ordering.eq
    else compare_all (split_dots (a ∷ p)) (split_dots (b ∷ q))

-- `Compare`
unfoldable pub compare_versions : Version → Version → Ordering
unfolding cmp_int and_then compare_pres
compare_versions a b = and_then (cmp_int a.major b.major) (
    and_then (cmp_int a.minor b.minor)
      (and_then (cmp_int a.patch b.patch) (compare_pres a.pre b.pre)))
