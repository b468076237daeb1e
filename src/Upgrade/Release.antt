-- ===== src/Upgrade/Release.antt =====
-- internal/upgrade/release.go: the release to install and the archive that is expected of it.
pub mod Checksums
pub mod Chosen
pub mod Unordered
use Prim.Native.Nat.{Ordering}
use omnistat.Prelude.{
  ℕ, suc, ◌^◌, Bool, true, false, ◌&&◌, ◌||◌, not, Bytes, bytes_eq, bytes_Eq, codes, Map, lookup,
  insert, List, [], ◌∷◌, ◌++◌, Option, none, some, ◌==◌, leb, if◌then◌else◌, length, take, map,
}
use omnistat.Runes.{within}
use omnistat.Runes.Trim.{trim_space, trim_return}
use omnistat.Runes.Fields.{fields, to_lower, cut_prefix, cut_suffix}
use omnistat.Settle.{Result, ok, err}
use omnistat.Strconv.{is_digit}
use omnistat.Upgrade.Http.{
  Body, ReadError, GetError, not_found, request_failed, bad_status, announced_too_large, Response,
  get,
}
use omnistat.Upgrade.Version.{
  Version, parse_version, version_string, version_number, compare_versions,
}

pub record Release : Type 0 where
  pub version : Version
  pub asset : Bytes
  pub sha256 : Bytes
  pub archive_url : Bytes
  pub checksums_url : Bytes

abbrev pub checksums_limit : ℕ
checksums_limit = 2 ^ 20

-- `archiveExt`
unfoldable pub archive_ext : Bytes → Bytes
archive_ext goos = if bytes_eq goos (codes "windows") then codes ".zip" else codes ".tar.gz"

-- What follows the version in an archive's name.
unfoldable pub asset_suffix : Bytes → Bytes → Bytes
unfolding archive_ext
asset_suffix goos goarch = b'_' ∷ (goos ++ (b'_' ∷ (goarch ++ archive_ext goos)))

-- `AssetName`
unfoldable pub asset_name : Version → Bytes → Bytes → Bytes
unfolding version_number asset_suffix
asset_name v goos goarch = codes "omnistat_" ++ (version_number v ++ asset_suffix goos goarch)

pub data ChecksumsError (E : Type 0) : Type 0 where
  bad_line : ℕ → ChecksumsError E
  not_hexadecimal : ℕ → ChecksumsError E
  listed_twice : Bytes → ChecksumsError E
  line_too_long : ChecksumsError E
  unreadable : ReadError E → ChecksumsError E

unfoldable pub is_hex_text : Bytes → Bool
is_hex_text [] = true
is_hex_text (c ∷ s) = (is_digit c || (within b'a' b'f' c || within b'A' b'F' c)) && is_hex_text s

-- sha256sum's mark for binary mode is no part of the name.
unfoldable pub trim_star : Bytes → Bytes
trim_star [] = []
trim_star (c ∷ s) = if c == b'*' then s else c ∷ s

-- The name is not listed yet, or with the same hash.
unfoldable pub agrees : Bytes → Option Bytes → Bool
agrees hash none = true
agrees hash (some prev) = bytes_eq prev hash

unfoldable pub add_sum :
    {E : Type 0} → ℕ → Bytes → Bytes → Map Bytes Bytes → Result (ChecksumsError E) (Map Bytes Bytes)
unfolding is_hex_text trim_star agrees
add_sum n hash file sums =
    if not (length hash == 64)
    then err (bad_line n)
    else if not (is_hex_text hash)
    then err (not_hexadecimal n)
    else if agrees (to_lower hash) (lookup (trim_star file) sums)
    then ok (insert (trim_star file) (to_lower hash) sums)
    else err (listed_twice (trim_star file))

-- The fields of line `n`; an empty line has none.
unfoldable pub add_fields :
    {E : Type 0} → ℕ → List Bytes → Map Bytes Bytes → Result (ChecksumsError E) (Map Bytes Bytes)
unfolding add_sum
add_fields n [] sums = ok sums
add_fields n (hash ∷ file ∷ []) sums = add_sum n hash file sums
add_fields n _ sums = err (bad_line n)

-- bufio.Scanner holds a line of less than 64 KiB.
abbrev max_token : ℕ
max_token = 2 ^ 16

-- The lines that bufio.Scanner delivers, each without its line break.
unfoldable pub scan_lines : Bytes → List Bytes
scan_lines [] = []
scan_lines (c ∷ s) =
    let rest = scan_lines s in
    if c == b'\n' then [] ∷ rest else elim rest [ [] ↦ (c ∷ []) ∷ [] | l ∷ ls ↦ (c ∷ l) ∷ ls ]

unfoldable pub add_lines :
    {E : Type 0} → ℕ → List Bytes → Map Bytes Bytes → Result (ChecksumsError E) (Map Bytes Bytes)
unfolding add_fields trim_space fields trim_return
add_lines n [] sums = ok sums
add_lines {E} n (l ∷ ls) sums = elim (leb max_token (length l)) [
  | true ↦ err line_too_long
  | false ↦ elim (add_fields {E = E} n (fields (trim_space (trim_return l))) sums) [
    | err e ↦ err e
    | ok sums' ↦ add_lines (suc n) ls sums'
  ]
]

-- The lines that came before a failure of the body are read first.
unfoldable pub read_sums :
    {E : Type 0} → Body (ReadError E) → Result (ChecksumsError E) (Map Bytes Bytes)
unfolding add_lines scan_lines
read_sums {E} body = elim (add_lines {E = E} 1 (scan_lines body.content) []) [
  | err e ↦ err e
  | ok sums ↦ elim body.failure [ none ↦ ok sums | some e ↦ err (unreadable e) ]
]

pub data ResolveError (E : Type 0) : Type 0 where
  not_a_version : Bytes → ResolveError E
  release_not_found : Version → ResolveError E
  no_checksums : GetError E → ResolveError E
  bad_checksums : ChecksumsError E → ResolveError E
  no_archive : Option Version → ResolveError E
  many_archives : ResolveError E

unfoldable pub checksums_url : Bytes → Option Version → Bytes
unfolding version_string
checksums_url base none = base ++ codes "/latest/download/checksums.txt"
checksums_url base (some v) =
    base ++ (codes "/download/" ++ (version_string v ++ codes "/checksums.txt"))

-- An order's answer is that there is no difference.
abbrev pub is_same : Ordering → Bool
is_same o = elim o [ Ordering.lt ↦ false | Ordering.eq ↦ true | Ordering.gt ↦ false ]

unfoldable pub is_pinned : Option Version → Version → Bool
unfolding compare_versions
is_pinned none v = true
is_pinned (some p) v = is_same (compare_versions v p)

-- The part of a file name between the program's and the platform's.
unfoldable pub middle : Bytes → Bytes → Bytes → Option Bytes
unfolding cut_prefix cut_suffix asset_suffix
middle goos goarch name = elim (cut_prefix (codes "omnistat_") name) [
  | none ↦ none
  | some rest ↦ cut_suffix (asset_suffix goos goarch) rest
]

module _ (base : Bytes) (pinned : Option Version) (goos goarch : Bytes) where
  unfoldable pub release_of : Bytes → Bytes → Version → Release
  unfolding version_string checksums_url
  release_of name sum v = record {
    version = v;
    asset = name;
    sha256 = sum;
    archive_url = base ++ (codes "/download/" ++ (version_string v ++ b'/' ∷ name));
    checksums_url = checksums_url base pinned;
  }

  of_number : Bytes → Bytes → Bytes → Option Release
  unfolding parse_version version_number is_pinned release_of
  of_number name sum num = elim (parse_version num) [
    | none ↦ none
    | some v ↦
        if bytes_eq (version_number v) num && is_pinned pinned v
        then some (release_of name sum v)
        else none
  ]

  -- The release that a line of the checksums stands for, if it is this platform's archive.
  unfoldable pub candidate : Bytes → Bytes → Option Release
  unfolding middle of_number
  candidate name sum = elim (middle goos goarch name) [
    | none ↦ none
    | some num ↦ of_number name sum num
  ]

  unfoldable pub candidates : Map Bytes Bytes → List Release
  unfolding candidate
  candidates [] = []
  candidates ((name, sum) ∷ sums) =
      let rest = candidates sums in elim (candidate name sum) [ none ↦ rest | some r ↦ r ∷ rest ]

unfoldable pub choose :
    {E : Type 0} → Option Version → List Release → Result (ResolveError E) Release
choose pinned [] = err (no_archive pinned)
choose pinned (r ∷ []) = ok r
choose pinned (r ∷ q ∷ rs) = err many_archives

missing : {E : Type 0} → GetError E → Option Version → ResolveError E
missing not_found (some v) = release_not_found v
missing not_found none = no_checksums not_found
missing (request_failed e) _ = no_checksums (request_failed e)
missing (bad_status n) _ = no_checksums (bad_status n)
missing (announced_too_large n) _ = no_checksums (announced_too_large n)

unfoldable pub choose_release :
    {E : Type 0}
    → Bytes
    → Option Version
    → Bytes
    → Bytes
    → Result (GetError E) (Body (ReadError E))
    → Result (ResolveError E) Release
unfolding missing read_sums candidates choose
choose_release base pinned goos goarch (err e) = err (missing e pinned)
choose_release {E} base pinned goos goarch (ok body) = elim (read_sums body) [
  | err e ↦ err (bad_checksums e)
  | ok sums ↦ choose pinned (candidates base pinned goos goarch sums)
]

module _ {E S : Type 0} (fetch : Bytes → S → Result E (Response E) × S) where
  unfoldable pub resolve_pinned :
      Bytes → Option Version → Bytes → Bytes → S → Result (ResolveError E) Release × S
  unfolding choose_release checksums_url get
  resolve_pinned base pinned goos goarch s =
      let (r, s') = get fetch (checksums_url base pinned) checksums_limit s in
      (choose_release base pinned goos goarch r, s')

  -- `Resolve`; nothing is wanted if `want` is empty.
  unfoldable pub resolve : Bytes → Bytes → Bytes → Bytes → S → Result (ResolveError E) Release × S
  unfolding resolve_pinned parse_version
  resolve base [] goos goarch s = resolve_pinned base none goos goarch s
  resolve base (w ∷ want) goos goarch s = elim (parse_version (w ∷ want)) [
    | none ↦ (err (not_a_version (w ∷ want)), s)
    | some v ↦ resolve_pinned base (some v) goos goarch s
  ]
