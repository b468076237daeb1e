-- ===== src/Upgrade/Version/Text.antt =====
-- internal/upgrade/version.go: the parsing of a version's text.
use omnistat.Prelude.{
  ℕ, ◌≤◌, Bool, true, false, Bytes, [], ◌∷◌, ◌++◌, ◌≡◌, refl, ap, ◌∙◌, arith, Bool-cases, inl, inr,
  ◌==◌, some, All, All-append,
}
use omnistat.Runes.Trim.{Visible, trim_space-Visible}
use omnistat.Strconv.{ℤ, pos, negsuc, max_int, is_digit, decimal, itoa, all_digits, result}
use omnistat.Strconv.RoundTrip.{decimal-digits, first-decimal, atoi-decimal}
use omnistat.Upgrade.Version.{
  Version, of_groups, then_dot, then_pre, span_digits, is_numeral, match_dotted, match_last,
  match_core, match_semver, strip_v, match_pre, pre_suffix, identifiers, described, parse_version,
  version_number, version_string,
}

span-append :
    (ds s : Bytes)
    → all_digits ds ≡ true
    → span_digits s ≡ ([], s)
    → span_digits (ds ++ s) ≡ (ds, s)
unfolding span_digits all_digits
span-append [] s h n = n
span-append (c ∷ ds) s h n =
    rw (span-append ds s (ground (arith, h)) n, let e : is_digit c ≡ true = ground (arith, h) in e)
      refl

numeral_of_first : (d : ℕ) (t : Bytes) → ((d == b'0') ≡ true → t ≡ []) → is_numeral (d ∷ t) ≡ true
unfolding is_numeral
numeral_of_first d [] h = refl
numeral_of_first d (c ∷ t) h = ground (arith, h)

decimal-numeral : (n : ℕ) → is_numeral (decimal n) ≡ true
decimal-numeral n =
    let (d, t, e, first) = first-decimal n in rw e (numeral_of_first d t (λ z. (first z).1))

dotted-decimal : (n : ℕ) (s : Bytes) → match_dotted (decimal n ++ b'.' ∷ s) ≡ some (decimal n, s)
unfolding match_dotted
dotted-decimal n s =
    ap then_dot (span-append (decimal n) (b'.' ∷ s) (decimal-digits n) (unfold span_digits in refl))
    ∙ unfold then_dot in rw (decimal-numeral n) refl

-- What may follow the numbers: nothing, or identifiers between dots.
abbrev pub valid_pre : Bytes → Bool
valid_pre [] = true
valid_pre (c ∷ p) = identifiers true (c ∷ p)

suffix-match : (p : Bytes) → valid_pre p ≡ true → match_pre (pre_suffix p) ≡ some p
unfolding match_pre pre_suffix
suffix-match [] h = refl
suffix-match (c ∷ p) h = rw h refl

suffix-span : (p : Bytes) → span_digits (pre_suffix p) ≡ ([], pre_suffix p)
unfolding span_digits pre_suffix
suffix-span [] = refl
suffix-span (c ∷ p) = refl

last-decimal :
    (n : ℕ) (p : Bytes)
    → valid_pre p ≡ true
    → match_last (decimal n ++ pre_suffix p) ≡ some (decimal n, p)
unfolding match_last
last-decimal n p h =
    ap then_pre (span-append (decimal n) (pre_suffix p) (decimal-digits n) (suffix-span p))
    ∙ unfold then_pre in rw (suffix-match p h, decimal-numeral n, then_pre) refl

abbrev core : ℕ → ℕ → ℕ → Bytes → Bytes
core a b c p = decimal a ++ (b'.' ∷ (decimal b ++ (b'.' ∷ (decimal c ++ pre_suffix p))))

core-decimal :
    (a b c : ℕ) (p : Bytes)
    → valid_pre p ≡ true
    → match_core (core a b c p) ≡ some (decimal a, decimal b, decimal c, p)
unfolding match_core
core-decimal a b c p h =
    rw
      (
        dotted-decimal a (decimal b ++ (b'.' ∷ (decimal c ++ pre_suffix p))),
        dotted-decimal b (decimal c ++ pre_suffix p),
        last-decimal c p h,
        match_core,
      )
      refl

digits-Visible : (s : Bytes) → all_digits s ≡ true → All Visible s
unfolding all_digits
digits-Visible [] h = tt
digits-Visible (c ∷ s) h = (ground (arith, h), digits-Visible s (ground (arith, h)))

decimal-Visible : (n : ℕ) → All Visible (decimal n)
decimal-Visible n = digits-Visible (decimal n) (decimal-digits n)

identifiers-Visible : (need : Bool) (p : Bytes) → identifiers need p ≡ true → All Visible p
unfolding identifiers
identifiers-Visible need [] h = tt
identifiers-Visible need (c ∷ p) h = elim (Bool-cases (c == b'.')) [
  | inl e ↦ (ground (arith, e), identifiers-Visible true p (ground (arith, h, e)))
  | inr e ↦ (ground (arith, h, e), identifiers-Visible false p (ground (arith, h, e)))
]

suffix-Visible : (p : Bytes) → valid_pre p ≡ true → All Visible (pre_suffix p)
unfolding pre_suffix
suffix-Visible [] h = tt
suffix-Visible (c ∷ p) h = (refl, identifiers-Visible true (c ∷ p) h)

text-Visible : (a b c : ℕ) (p : Bytes) → valid_pre p ≡ true → All Visible (b'v' ∷ core a b c p)
text-Visible a b c p h = (
  refl,
  All-append Visible (decimal a) _ (decimal-Visible a) (
    refl,
    All-append Visible (decimal b) _ (decimal-Visible b)
        (refl, All-append Visible (decimal c) _ (decimal-Visible c) (suffix-Visible p h)),
  ),
)

-- A number of a release: not negative, and an int.
abbrev pub IsPart : ℤ → Type 0
IsPart (pos n) = n ≤ max_int
IsPart (negsuc n) = ⊥

abbrev pub IsRelease : Version → Type 0
IsRelease v =
    IsPart v.major
    × IsPart v.minor
    × IsPart v.patch
    × (valid_pre v.pre ≡ true)
    × (described true v.pre ≡ false)

abbrev version : ℤ → ℤ → ℤ → Bytes → Version
version a b c p = record { major = a; minor = b; patch = c; pre = p }

parse-parts :
    (a b c : ℕ) (p : Bytes)
    → let v = version (pos a) (pos b) (pos c) p in
      IsRelease v → parse_version (version_string v) ≡ some v
unfolding parse_version version_string version_number itoa
parse-parts a b c p (ha, hb, hc, hp, hd) =
    ap (λ s. of_groups (match_semver s))
      (trim_space-Visible (b'v' ∷ core a b c p) (text-Visible a b c p hp))
    ∙ (ap of_groups (unfold match_semver strip_v in core-decimal a b c p hp)
        ∙ rw (hd, atoi-decimal a ha, atoi-decimal b hb, atoi-decimal c hc, of_groups)
            (unfold result in refl))

parse-fields :
    (a b c : ℤ) (p : Bytes)
    → let v = version a b c p in IsRelease v → parse_version (version_string v) ≡ some v
parse-fields (pos a) (pos b) (pos c) p h = parse-parts a b c p h
parse-fields (negsuc a) b c p h = absurd h.0
parse-fields (pos a) (negsuc b) c p h = absurd h.1
parse-fields (pos a) (pos b) (negsuc c) p h = absurd h.2

-- If the numbers of a version are ints that are not negative, and its pre-release is empty or
-- dotted identifiers that do not look like the output of git describe, ParseVersion reads its
-- String as that version.
pub parse_version-string : (v : Version) → IsRelease v → parse_version (version_string v) ≡ some v
parse_version-string v h = parse-fields v.major v.minor v.patch v.pre h
