-- ===== src/Tests/Upgrade.antt =====
-- Runs of internal/upgrade: versions, checksums, and a choice of an archive.
use mathlib.Core.List.{Permᴰ}
use Prim.Native.Nat.{Ordering}
use omnistat.Prelude.{
  ℕ, true, Bytes, codes, bytes_eq, bytes_Eq, Map, lookup, insert, [], ◌∷◌, ◌++◌, none, some, ◌≡◌,
  refl, arith, All, Unique,
}
use omnistat.Runes.Trim.{trim_space, trim_return}
use omnistat.Runes.Fields.{fields}
use omnistat.Settle.{Result, ok}
use omnistat.Strconv.{pos, atoi, result, all_digits, value, negated}
use omnistat.Upgrade.Version.{
  Version, compare_versions, compare_all, compare_pre, compare_pres, cmp_idents, cmp_int, described,
  identifiers, is_numeral, match_core, match_dotted, match_last, match_pre, match_semver, number_of,
  of_groups, parse_version, span_digits, strip_v, then_dot, then_pre, version_string,
}
use omnistat.Upgrade.Version.Text.{IsRelease, parse_version-string}
use omnistat.Upgrade.Version.Parse.{parse_version-IsRelease}
use omnistat.Upgrade.Http.{Body, Response, ReadError}
use omnistat.Upgrade.Release.{
  Release, add_fields, add_lines, add_sum, agrees, candidates, checksums_url, choose, is_hex_text,
  is_pinned, read_sums, scan_lines, trim_star,
}
use omnistat.Upgrade.Release.Checksums.{Says, read_sums-Says}
use omnistat.Upgrade.Release.Unordered.{choose-unordered}

abbrev candidate_1 : Version
candidate_1 = record { major = pos 0; minor = pos 5; patch = pos 10; pre = codes "rc.1" }

candidate_1-IsRelease : IsRelease candidate_1
unfolding described identifiers bytes_eq
candidate_1-IsRelease = (omega arith, omega arith, omega arith, refl, refl)

parse_version-string_example : parse_version (version_string candidate_1) ≡ some candidate_1
parse_version-string_example = parse_version-string candidate_1 candidate_1-IsRelease

read_candidate : parse_version (codes " 0.5.10-rc.1\n") ≡ some candidate_1
unfolding parse_version trim_space match_semver strip_v match_core match_dotted match_last
    span_digits is_numeral match_pre identifiers then_dot then_pre of_groups described atoi result
    value all_digits bytes_eq
read_candidate = refl

parse_version-IsRelease_example : IsRelease candidate_1
parse_version-IsRelease_example =
    parse_version-IsRelease (codes " 0.5.10-rc.1\n") candidate_1 read_candidate

-- What `git describe` prints is no release.
described_refused : parse_version (codes "v0.5.0-3-gabcdef0") ≡ none
unfolding parse_version trim_space match_semver strip_v match_core match_dotted match_last
    span_digits is_numeral match_pre identifiers then_dot then_pre of_groups described
described_refused = refl

-- A numeric identifier is older than a longer one of more digits, and a release is newer.
in_order :
    (compare_pre (codes "9") (codes "10") ≡ Ordering.lt)
    × (compare_pres (codes "rc.1") [] ≡ Ordering.lt)
unfolding compare_pre compare_pres cmp_idents cmp_int number_of atoi value all_digits
in_order = (refl, refl)

-- An identifier with a sign is read as a number.
signed : compare_pre (codes "-2") (codes "-1") ≡ Ordering.lt
unfolding compare_pre cmp_idents cmp_int number_of atoi value all_digits negated
signed = refl

-- Any hash of 64 digits.
abbrev hash : Bytes
hash = codes "0123456789abcdef0123456789abcdef0123456789ABCDEF0123456789abcdef"

abbrev lower_hash : Bytes
lower_hash = codes "0123456789abcdef0123456789abcdef0123456789abcdef0123456789abcdef"

abbrev linux_asset : Bytes
linux_asset = codes "omnistat_0.5.10-rc.1_linux_amd64.tar.gz"

-- The archives of two platforms.
abbrev checksums : Bytes
checksums =
    hash
    ++ (codes "  "
        ++ (linux_asset ++ (b'\n' ∷ (hash ++ codes "  *omnistat_0.5.10-rc.1_windows_amd64.zip\n"))))

abbrev sums_body : Body (ReadError Bytes)
sums_body = record { content = checksums; failure = none }

abbrev sums : Map Bytes Bytes
sums = (linux_asset, lower_hash) ∷ (codes "omnistat_0.5.10-rc.1_windows_amd64.zip", lower_hash) ∷ []

sums-read : read_sums sums_body ≡ ok sums
unfolding read_sums add_lines scan_lines add_fields add_sum agrees is_hex_text trim_star trim_space
    trim_return fields lookup insert bytes_eq
sums-read = refl

read_sums-Says_example : All (Says sums) (scan_lines checksums) × Unique sums
read_sums-Says_example = read_sums-Says sums_body sums sums-read

-- A location that answers every request with the checksums.
abbrev answer : Bytes → ℕ → Result Bytes (Response Bytes) × ℕ
answer url n = (
  ok (record {
    status = 200;
    content_length = none;
    body = record { content = checksums; failure = none };
  }),
  n,
)

abbrev base : Bytes
base = codes "https://example.org/releases"

abbrev chosen : Release
chosen = record {
  version = candidate_1;
  asset = linux_asset;
  sha256 = lower_hash;
  archive_url =
      codes
        "https://example.org/releases/download/v0.5.10-rc.1/omnistat_0.5.10-rc.1_linux_amd64.tar.gz";
  checksums_url = codes "https://example.org/releases/download/v0.5.10-rc.1/checksums.txt";
}

-- A pinned release with a leading zero in its pre-release lets another one in.
leading_zero :
    is_pinned
      (some (record { major = pos 1; minor = pos 0; patch = pos 0; pre = codes "rc.01" }))
      (record { major = pos 1; minor = pos 0; patch = pos 0; pre = codes "rc.1" })
    ≡ true
unfolding is_pinned compare_versions compare_pres compare_all compare_pre cmp_idents cmp_int
    number_of atoi value all_digits bytes_eq identifiers
leading_zero = refl

abbrev swapped : Map Bytes Bytes
swapped =
    (codes "omnistat_0.5.10-rc.1_windows_amd64.zip", lower_hash) ∷ (linux_asset, lower_hash) ∷ []

choose-unordered_example :
    choose {E = ℕ} none (candidates base none (codes "linux") (codes "amd64") sums)
    ≡ choose none (candidates base none (codes "linux") (codes "amd64") swapped)
choose-unordered_example =
    choose-unordered base none (codes "linux") (codes "amd64") sums swapped (Permᴰ.swap refl refl)
