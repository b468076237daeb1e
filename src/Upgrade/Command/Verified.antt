-- ===== src/Upgrade/Command/Verified.antt =====
-- internal/cli/upgrade.go: what is known of a binary that is handed the installation.
use Prim.Native.Nat.{Ordering}
use omnistat.Prelude.{
  ◌≢◌, true, false, Bytes, bytes_eq, bytes_eq_iff, bytes_eq_refl, codes, List, [], ◌∷◌, ◌++◌, none,
  some, ◌≡◌, ◌⊎◌, refl, sym, ap, subst, ◌∙◌, inl, inr, Bool-cases, Option-cases, if◌then◌else◌,
  arith,
}
use omnistat.Runes.Fields.{fields}
use omnistat.Settle.{Result, ok}
use omnistat.Upgrade.Version.{Version, parse_version, compare_versions}
use omnistat.Upgrade.Http.{Body, ReadError, get}
use omnistat.Upgrade.Release.{Release, resolve, is_same}
use omnistat.Upgrade.Machine.{Machine, Leaves, Installation}
use omnistat.Upgrade.Fetch.{archive_limit, binary_name, download, unpack, fetch_binary, stage}
use omnistat.Upgrade.Fetch.Verified.{Whole, fetch_binary-Whole}
use omnistat.Upgrade.Command.{
  Options, against, decide, decide_by, is_empty, parse_version_output, reports, upgrade,
}
use omnistat.Upgrade.Command.Chain.{Chain}
use omnistat.Upgrade.Command.Handover.{handed_over, service_install}
use omnistat.Upgrade.Command.Service.{upgrade-ActsBy}

-- The output of `omnistat version` that names a release version.
abbrev pub Names : Bytes → Version → Type 0
Names out v =
    (text : Bytes) × (fields out ≡ codes "omnistat" ∷ text ∷ []) × (parse_version text ≡ some v)

Names-parsed : (out : Bytes) (v : Version) → Names out v → parse_version_output out ≡ some v
unfolding parse_version_output
Names-parsed out v (text, two, read) =
    rw (two, parse_version_output, bytes_eq_refl (codes "omnistat")) read

-- The other way round.
read_fields :
    (out : Bytes) (fs : List Bytes) (v : Version)
    → fields out ≡ fs
    → parse_version_output out ≡ some v
    → Names out v
unfolding parse_version_output
read_fields out [] v e h = absurd (ground (arith, e, h))
read_fields out (a ∷ []) v e h = absurd (ground (arith, e, h))
read_fields out (a ∷ b ∷ c ∷ rest) v e h = absurd (ground (arith, e, h))
read_fields out (a ∷ b ∷ []) v e h = elim (Bool-cases (bytes_eq a (codes "omnistat"))) [
  | inr n ↦ absurd (ground (arith, e, n, h))
  | inl y ↦ (
    b,
    e ∙ ap (λ w. w ∷ b ∷ []) ((bytes_eq_iff a (codes "omnistat")).0 y),
    ground (arith, e, y, h),
  )
]

same_order : (c : Ordering) → is_same c ≡ true → c ≡ Ordering.eq
same_order Ordering.lt h = cc
same_order Ordering.eq h = refl
same_order Ordering.gt h = cc

-- The output names a version that compares equal to the release's.
abbrev pub Reports : Release → Bytes → Type 0
Reports rel out = (v : Version) × Names out v × (compare_versions v rel.version ≡ Ordering.eq)

reports-Reports : (rel : Release) (out : Bytes) → reports rel out ≡ true → Reports rel out
unfolding reports
reports-Reports rel out h = elim (Option-cases (parse_version_output out)) [
  | inl n ↦ absurd (ground (arith, n, h))
  | inr (v, e) ↦ (
    v,
    read_fields out (fields out) v refl e,
    same_order (compare_versions v rel.version) (ground (arith, e, h)),
  )
]

-- If the output names a version, the release is another one: a newer one, unless a release was
-- asked for.
abbrev pub Wanted : Options → Release → Bytes → Type 0
Wanted o rel out =
    (o.check ≡ false)
    × ((v : Version)
        → Names out v
        → (compare_versions rel.version v ≢ Ordering.eq)
          × (o.want ≡ [] → compare_versions rel.version v ≡ Ordering.gt))

decide_by-none :
    {E : Type 0} (o : Options) (rel : Release) (c : Ordering)
    → decide_by {E = E} o rel c ≡ none
    → (o.check ≡ false) × (c ≢ Ordering.eq) × ((is_empty o.want ≡ true) → c ≡ Ordering.gt)
unfolding decide_by
decide_by-none o rel Ordering.eq h = cc
decide_by-none o rel Ordering.lt h = elim (Bool-cases (is_empty o.want)) [
  | inl e ↦ absurd (ground (arith, e, h))
  | inr e ↦ (ground (arith, e, h), λ q. cc, λ q. absurd (ground (arith, e, q)))
]
decide_by-none o rel Ordering.gt h = (ground (arith, h), λ q. cc, λ q. refl)

decide-Wanted :
    {E : Type 0} (o : Options) (rel : Release) (out : Bytes)
    → decide {E = E} o rel (parse_version_output out) ≡ none
    → Wanted o rel out
unfolding decide against is_empty
decide-Wanted {E} o rel out h =
    let (no_check, other, newer) =
      decide_by-none {E = E} o rel (against rel (parse_version_output out)) h in
    (
      no_check,
      λ v n.
          let e = Names-parsed out v n in
          let same : against rel (parse_version_output out) ≡ compare_versions rel.version v =
            rw (e, against) refl in
          (λ q. other (same ∙ q), λ q. sym same ∙ newer (rw q (unfold is_empty in refl))),
    )

-- The program's name in an archive.
abbrev pub program : Bytes → Bytes
program goos = if bytes_eq goos (codes "windows") then codes "omnistat.exe" else codes "omnistat"

module _ {S E : Type 0} (m : Machine S E) where
  -- The binary is the file that was unpacked from the downloaded archive.
  abbrev pub Unpacked : Release → Bytes → Bytes → S → Bytes → Type 0
  Unpacked rel path goos s bin =
      let archive = m.join path rel.asset in
      let (_, s') = download m rel archive s in
      (bin ≡ m.join path (program goos)) × ((unpack m goos archive bin s').0 ≡ none)

  fetch_binary-Unpacked :
      (rel : Release) (path goos bin : Bytes) (s : S)
      → (fetch_binary m rel path goos s).0 ≡ ok bin
      → Unpacked rel path goos s bin
  unfolding fetch_binary binary_name
  fetch_binary-Unpacked rel path goos bin s h =
      let archive = m.join path rel.asset in
      let (downloaded, s1) = download m rel archive s in
      let dst = m.join path (program goos) in
      elim (Option-cases downloaded) [
        | inr (x, e) ↦ absurd (ground (arith, e, h))
        | inl e ↦ elim (Option-cases (unpack m goos archive dst s1).0) [
          | inr (x, u) ↦ absurd (ground (arith, e, u, h))
          | inl u ↦
              let same : dst ≡ bin = ground (arith, e, u, h) in
              (sym same, subst (λ b. (unpack m goos archive b s1).0 ≡ none) same u)
        ]
      ]

-- How the binary came to be installed: each step begins where the one before it ended.
pub record Proven {S E : Type 0} (m : Machine S E) (o : Options) (releases_url : Result Bytes Bytes)
    (s : S) (bin : Bytes) : Type 0 where
  pub installed : Installation
  pub base : Bytes
  pub release : Release
  pub path : Bytes
  pub body : Body (ReadError E)
  pub is_installed :
      ((m.installation s).0 ≡ ok installed) × (installed.exists ≡ true) × (releases_url ≡ ok base)
  pub resolved :
      let s1 = (m.version installed.binary (m.installation s).1).2 in
      (resolve m.fetch base o.want o.goos o.goarch s1).0 ≡ ok release
  pub wanted : Wanted o release (m.version installed.binary (m.installation s).1).0
  pub staged :
      let s1 = (m.version installed.binary (m.installation s).1).2 in
      let s2 = (resolve m.fetch base o.want o.goos o.goarch s1).1 in
      let dir = if is_empty o.stage_dir then m.dir installed.binary else o.stage_dir in
      let (r, s3) = stage m dir s2 in
      (r ≡ ok path)
      × ((get m.fetch release.archive_url archive_limit s3).0 ≡ ok body)
      × Whole m release body
      × Unpacked m release path o.goos s3 bin
      × (let s4 = (fetch_binary m release path o.goos s3).1 in
          ((m.version bin s4).1 ≡ none) × Reports release (m.version bin s4).0)

Chain-Proven :
    {S E : Type 0} (m : Machine S E) (o : Options) (releases_url : Result Bytes Bytes) (s : S)
    (bin : Bytes)
    → Chain m o releases_url s bin
    → Proven m o releases_url s bin
Chain-Proven {S} {E} m o releases_url s bin (i, base, got, there, url, found) =
    let (rel, chosen, (decided, (path, at_path, (fetched, (ran, reported))))) = found in
    let out = (m.version i.binary (m.installation s).1).0 in
    let s1 = (m.version i.binary (m.installation s).1).2 in
    let s2 = (resolve m.fetch base o.want o.goos o.goarch s1).1 in
    let dir = if is_empty o.stage_dir then m.dir i.binary else o.stage_dir in
    let s3 = (stage m dir s2).1 in
    let s4 = (fetch_binary m rel path o.goos s3).1 in
    let (body, read, whole) = fetch_binary-Whole m rel path o.goos bin s3 fetched in
    record {
      installed = i;
      base = base;
      release = rel;
      path = path;
      body = body;
      is_installed = (got, there, url);
      resolved = chosen;
      wanted = decide-Wanted {E = E} o rel out decided;
      staged = (
        at_path,
        read,
        whole,
        fetch_binary-Unpacked m rel path o.goos bin s3 fetched,
        (ran, reports-Reports rel (m.version bin s4).0 reported),
      );
    }

-- The same machine, with a list of what it was told to install.
abbrev pub Log : Type 0
Log = List (Bytes × List Bytes)

abbrev pub watched : {S E : Type 0} → Machine S E → Machine (S × Log) E
watched m = record {
  join = m.join;
  clean = m.clean;
  dir = m.dir;
  ext = m.ext;
  equal_fold = m.equal_fold;
  sha256_hex = m.sha256_hex;
  read_tar = m.read_tar;
  read_zip = m.read_zip;
  create = λ p (s, log). let (r, s') = m.create p s in (r, (s', log));
  write = λ p c (s, log). let (r, s') = m.write p c s in (r, (s', log));
  read_file = λ p (s, log). let (r, s') = m.read_file p s in (r, (s', log));
  exists = λ p (s, log). let (r, s') = m.exists p s in (r, (s', log));
  remove = λ p (s, log). (m.remove p s, log);
  rename = λ p q (s, log). let (r, s') = m.rename p q s in (r, (s', log));
  glob = λ p (s, log). let (r, s') = m.glob p s in (r, (s', log));
  remove_all = λ p (s, log). (m.remove_all p s, log);
  make_temp = λ p q (s, log). let (r, s') = m.make_temp p q s in (r, (s', log));
  remove_at_restart = λ p q (s, log). let (r, s') = m.remove_at_restart p q s in (r, (s', log));
  executable = λ (s, log). let (r, s') = m.executable s in (r, (s', log));
  fetch = λ u (s, log). let (r, s') = m.fetch u s in (r, (s', log));
  installation = λ (s, log). let (r, s') = m.installation s in (r, (s', log));
  version = λ b (s, log). let (out, e, s') = m.version b s in (out, e, (s', log));
  install = λ b args (s, log). let (r, s') = m.install b args s in (r, (s', log ++ (b, args) ∷ []));
}

watched-Leaves : {S E : Type 0} (m : Machine S E) → Leaves (watched m) (λ z. z.1)
watched-Leaves m = record {
  create = λ p s. refl;
  write = λ p c s. refl;
  read_file = λ p s. refl;
  exists = λ p s. refl;
  remove = λ p s. refl;
  rename = λ p q s. refl;
  glob = λ p s. refl;
  remove_all = λ p s. refl;
  make_temp = λ p q s. refl;
  remove_at_restart = λ p q s. refl;
  executable = λ s. refl;
  fetch = λ u s. refl;
  installation = λ s. refl;
  version = λ b s. refl;
}

-- The command runs `service install` at most once, and then of a binary of which this holds, each
-- step from the state that the one before it left: a service is installed, Resolve found a
-- release, and it is no check; if the installed binary's output names a version, the release
-- differs from it, and is newer unless a version is asked for; its archive was read to the end
-- with the SHA-256 of the release, the binary was unpacked from the saved archive, and it ran and
-- named a version that compares equal to the release's.
pub upgrade-Proven :
    {S E : Type 0} (m : Machine S E) (o : Options) (releases_url : Result Bytes Bytes) (s : S)
    → let (end, (_, log)) = upgrade (watched m) o releases_url (s, []) in
      ((log ≡ []) × (handed_over end ≡ false))
      ⊎ ((bin : Bytes) × (log ≡ (bin, service_install o.dry_run) ∷ [])
          × Proven (watched m) o releases_url (s, []) bin)
upgrade-Proven {S} {E} m o releases_url s =
    let M : Machine (S × Log) E = watched m in
    let view : S × Log → Log = λ z. z.1 in
    elim (upgrade-ActsBy M o view (watched-Leaves m) (Proven M o releases_url (s, [])) releases_url
      (s, []) (Chain-Proven M o releases_url (s, []))) [
        | inl h ↦ inl h
        | inr (bin, at, proven, before, follows, after) ↦
            inr (bin, after ∙ ap (λ l. l ++ (bin, service_install o.dry_run) ∷ []) before, proven)
      ]
