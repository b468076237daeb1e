-- ===== src/Upgrade/Fetch.antt =====
-- internal/upgrade/fetch.go and stage.go: the archive is downloaded, verified and unpacked in a
-- directory of its own.
pub mod Quiet
pub mod Verified
use omnistat.Prelude.{
  ℕ, suc, ◌*◌, ◌^◌, Bool, true, false, ◌&&◌, not, Bytes, bytes_eq, codes, List, [], ◌∷◌, ◌++◌,
  Option, none, some, leb, ltb, length, take, if◌then◌else◌,
}
use omnistat.Settle.{Result, ok, err}
use omnistat.Upgrade.Http.{Body, ReadError, GetError, get}
use omnistat.Upgrade.Release.{Release}
use omnistat.Upgrade.Machine.{Machine, Entry, Archive}

abbrev pub archive_limit : ℕ
archive_limit = 256 * 2 ^ 20

abbrev binary_limit : ℕ
binary_limit = 256 * 2 ^ 20

-- `StagePrefix`
abbrev stage_prefix : Bytes
stage_prefix = codes ".omnistat-upgrade-"

-- `BinaryName`
unfoldable pub binary_name : Bytes → Bytes
binary_name goos =
    if bytes_eq goos (codes "windows") then codes "omnistat.exe" else codes "omnistat"

pub data FetchError (E : Type 0) : Type 0 where
  not_downloaded : GetError E → FetchError E
  not_created not_written : E → FetchError E
  not_read : ReadError E → FetchError E
  wrong_checksum : Bytes → Bytes → FetchError E
  no_binary : FetchError E
  bad_archive : E → FetchError E
  binary_too_large : FetchError E

module _ {S E : Type 0} (m : Machine S E) where
  -- A body is copied to a file until it ends or fails.
  copied : Option E → Option (ReadError E) → Option (FetchError E)
  copied (some e) failure = some (not_written e)
  copied none (some e) = some (not_read e)
  copied none none = none

  check_sum : Release → Bytes → Option (FetchError E)
  check_sum rel content =
      if bytes_eq (m.sha256_hex content) rel.sha256
      then none
      else some (wrong_checksum rel.sha256 (m.sha256_hex content))

  save : Release → Bytes → Body (ReadError E) → S → Option (FetchError E) × S
  unfolding copied check_sum
  save rel path body s =
      let (opened, s1) = m.create path s in
      elim opened [
        | some e ↦ (some (not_created e), s1)
        | none ↦
            let (written, s2) = m.write path body.content s1 in
            elim (copied written body.failure) [
              | some e ↦ (some e, s2)
              | none ↦ (check_sum rel body.content, s2)
            ]
      ]

  -- `download`
  unfoldable pub download : Release → Bytes → S → Option (FetchError E) × S
  unfolding save get
  download rel path s =
      let (r, s') = get m.fetch rel.archive_url archive_limit s in
      elim r [ err e ↦ (some (not_downloaded e), s') | ok body ↦ save rel path body s' ]

  -- What is wrong with a binary after the copy of at most one byte more than the limit.
  oversized : Body E → Option (FetchError E)
  oversized b =
      if ltb binary_limit (length b.content)
      then some binary_too_large
      else elim b.failure [ none ↦ none | some e ↦ some (bad_archive e) ]

  -- `writeBinary`
  unfoldable pub write_binary : Bytes → Body E → S → Option (FetchError E) × S
  unfolding oversized
  write_binary dst b s =
      let (opened, s1) = m.create dst s in
      elim opened [
        | some e ↦ (some (not_created e), s1)
        | none ↦
            let (written, s2) = m.write dst (take (suc binary_limit) b.content) s1 in
            elim written [ some e ↦ (some (not_written e), s2) | none ↦ (oversized b, s2) ]
      ]

  abbrev is_binary_tar : Bytes → Entry E → Bool
  is_binary_tar name x = x.regular && bytes_eq (m.clean x.name) name

  abbrev is_binary_zip : Bytes → Entry E → Bool
  is_binary_zip name x = bytes_eq x.name name && x.regular

  find : (Entry E → Bool) → List (Entry E) → Option (Entry E)
  find wanted [] = none
  find wanted (x ∷ xs) = let rest = find wanted xs in if wanted x then some x else rest

  -- The entries are read in turn; the first wanted one is written.
  extract : (Entry E → Bool) → Result E (Archive E) → Bytes → S → Option (FetchError E) × S
  unfolding find write_binary
  extract wanted (err e) dst s = (some (bad_archive e), s)
  extract wanted (ok a) dst s = elim (find wanted a.entries) [
    | none ↦ (elim a.broken [ none ↦ some no_binary | some e ↦ some (bad_archive e) ], s)
    | some x ↦ elim x.open_error [
      | some e ↦ (some (bad_archive e), s)
      | none ↦ write_binary dst x.body s
    ]
  ]

  -- `untar` and `unzip`
  unfoldable pub unpack : Bytes → Bytes → Bytes → S → Option (FetchError E) × S
  unfolding extract binary_name
  unpack goos archive dst s =
      let (r, s') = m.read_file archive s in
      elim r [
        | err e ↦ (some (bad_archive e), s')
        | ok bytes ↦
            if bytes_eq goos (codes "windows")
            then extract (is_binary_zip (binary_name goos)) (m.read_zip bytes) dst s'
            else extract (is_binary_tar (binary_name goos)) (m.read_tar bytes) dst s'
      ]

  -- `Fetch`: the archive is removed in any case.
  unfoldable pub fetch_binary : Release → Bytes → Bytes → S → Result (FetchError E) Bytes × S
  unfolding download unpack binary_name
  fetch_binary rel dir goos s =
      let archive = m.join dir rel.asset in
      let (downloaded, s1) = download rel archive s in
      elim downloaded [
        | some e ↦ (err e, m.remove archive s1)
        | none ↦
            let bin = m.join dir (binary_name goos) in
            let (unpacked, s2) = unpack goos archive bin s1 in
            elim unpacked [
              | some e ↦ (err e, m.remove archive (m.remove bin s2))
              | none ↦ (ok bin, m.remove archive s2)
            ]
      ]

  remove_each : List Bytes → S → S
  remove_each [] s = s
  remove_each (p ∷ ps) s = remove_each ps (m.remove_all p s)

  -- `Stage`: what an interrupted upgrade left behind is removed first.
  unfoldable pub stage : Bytes → S → Result E Bytes × S
  unfolding remove_each
  stage dir s =
      let (old, s1) = m.glob (m.join dir (stage_prefix ++ b'*' ∷ [])) s in
      m.make_temp dir stage_prefix (remove_each old s1)
