-- ===== src/Upgrade/Version/Parse.antt =====
-- internal/upgrade/version.go: what `ParseVersion` accepts.
use omnistat.Prelude.{
  true, Bytes, [], ◌∷◌, ◌≡◌, refl, arith, Bool-cases, inl, inr, Option-cases, some, subst,
}
use omnistat.Strconv.{is_digit, all_digits, atoi, result}
use omnistat.Strconv.RoundTrip.{atoi-bounded}
use omnistat.Upgrade.Version.{
  Version, of_groups, then_dot, then_pre, span_digits, match_dotted, match_last, match_core,
  match_semver, strip_v, match_pre, identifiers, described, parse_version, version_string,
}
use omnistat.Upgrade.Version.Text.{IsPart, IsRelease, valid_pre, parse_version-string}
use omnistat.Runes.Trim.{trim_space}

span-digits : (s : Bytes) → all_digits (span_digits s).0 ≡ true
unfolding span_digits all_digits
span-digits [] = refl
span-digits (c ∷ s) = elim (Bool-cases (is_digit c)) [
  | inl e ↦ rw e (ground (arith, e, span-digits s))
  | inr e ↦ rw e refl
]

then_dot-digits :
    (g : Bytes × Bytes) (a s : Bytes)
    → all_digits g.0 ≡ true
    → then_dot g ≡ some (a, s)
    → all_digits a ≡ true
unfolding then_dot
then_dot-digits (ds, []) a s h e = cc
then_dot-digits (ds, c ∷ r) a s h e = ground (arith, h, e)

valid_of_identifiers : (p : Bytes) → identifiers true p ≡ true → valid_pre p ≡ true
unfolding identifiers
valid_of_identifiers [] h = cc
valid_of_identifiers (c ∷ p) h = h

match_pre-valid : (s p : Bytes) → match_pre s ≡ some p → valid_pre p ≡ true
unfolding match_pre
match_pre-valid [] p e = subst (λ q. valid_pre q ≡ true) (let i : [] ≡ p = cc in i) refl
match_pre-valid (c ∷ s) p e = ground (arith, valid_of_identifiers p, e)

then_pre-digits :
    (g : Bytes × Bytes) (a p : Bytes)
    → all_digits g.0 ≡ true
    → then_pre g ≡ some (a, p)
    → (all_digits a ≡ true) × (valid_pre p ≡ true)
unfolding then_pre
then_pre-digits (ds, s) a p h e = elim (Option-cases (match_pre s)) [
  | inl n ↦ absurd (ground (arith, n, e))
  | inr (q, m) ↦ (ground (arith, h, m, e), ground (arith, match_pre-valid s q m, m, e))
]

match_dotted-digits : (t a s : Bytes) → match_dotted t ≡ some (a, s) → all_digits a ≡ true
unfolding match_dotted
match_dotted-digits t a s e = then_dot-digits (span_digits t) a s (span-digits t) e

match_core-digits :
    (t a b c p : Bytes)
    → match_core t ≡ some (a, b, c, p)
    → (all_digits a ≡ true) × (all_digits b ≡ true) × (all_digits c ≡ true) × (valid_pre p ≡ true)
unfolding match_core match_last
match_core-digits t a b c p e = elim (Option-cases (match_dotted t)) [
  | inl n ↦ absurd (ground (arith, n, e))
  | inr ((a', s), m) ↦ elim (Option-cases (match_dotted s)) [
    | inl n ↦ absurd (ground (arith, n, m, e))
    | inr ((b', r), m') ↦ elim (Option-cases (match_last r)) [
      | inl n ↦ absurd (ground (arith, n, m, m', e))
      | inr ((c', q), m'') ↦
          let ha = match_dotted-digits t a' s m in
          let hb = match_dotted-digits s b' r m' in
          let hc =
            then_pre-digits (span_digits r) c' q (span-digits r) (unfold match_last in m'') in
          (
            ground (arith, m, m', m'', e, ha),
            ground (arith, m, m', m'', e, hb),
            ground (arith, m, m', m'', e, hc.0),
            ground (arith, m, m', m'', e, hc.1),
          )
    ]
  ]
]

digits-IsPart : (s : Bytes) → all_digits s ≡ true → IsPart (result (atoi s))
digits-IsPart s h = let (n, e, fits) = atoi-bounded s h in rw e fits

of_groups-IsRelease :
    (a b c p : Bytes) (v : Version)
    → (all_digits a ≡ true) × (all_digits b ≡ true) × (all_digits c ≡ true) × (valid_pre p ≡ true)
    → of_groups (some (a, b, c, p)) ≡ some v
    → IsRelease v
unfolding of_groups
of_groups-IsRelease a b c p v (ha, hb, hc, hp) e = elim (Bool-cases (described true p)) [
  | inl d ↦ absurd (ground (arith, d, e))
  | inr d ↦
      let w : Version = record {
        major = result (atoi a);
        minor = result (atoi b);
        patch = result (atoi c);
        pre = p;
      } in
      let same : w ≡ v = ground (arith, d, e) in
      subst IsRelease same (digits-IsPart a ha, digits-IsPart b hb, digits-IsPart c hc, hp, d)
]

-- What ParseVersion accepts has numbers that are ints and not negative, and a pre-release that is
-- empty or dotted identifiers that do not look like the output of git describe.
pub parse_version-IsRelease : (s : Bytes) (v : Version) → parse_version s ≡ some v → IsRelease v
unfolding parse_version match_semver
parse_version-IsRelease s v e = elim (Option-cases (match_core (strip_v (trim_space s)))) [
  | inl n ↦ absurd (ground (arith, n, e))
  | inr ((a, b, c, p), m) ↦
      of_groups-IsRelease a b c p v (match_core-digits (strip_v (trim_space s)) a b c p m)
        (subst (λ o. of_groups o ≡ some v) m e)
]

-- The text of what `ParseVersion` accepts is a text of the same version.
pub parse_version_idem :
    (s : Bytes) (v : Version) → parse_version s ≡ some v → parse_version (version_string v) ≡ some v
parse_version_idem s v e = parse_version-string v (parse_version-IsRelease s v e)
