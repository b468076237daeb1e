-- ===== src/Upgrade/Command.antt =====
-- internal/cli/upgrade.go: whether to upgrade, and the handover to the new binary. What is printed
-- is not modelled: an end stands for its message and has its exit code.
pub mod Chain
pub mod Handover
pub mod Service
pub mod Verified
use Prim.Native.Nat.{Ordering}
use omnistat.Prelude.{
  ℕ, ltb, Bool, true, false, ◌&&◌, ◌||◌, not, Bytes, bytes_eq, codes, List, [], ◌∷◌, ◌++◌, Option,
  none, some, ◌==◌, if◌then◌else◌,
}
use omnistat.Runes.Fields.{fields}
use omnistat.Settle.{Result, ok, err}
use omnistat.Upgrade.Version.{Version, parse_version, compare_versions}
use omnistat.Upgrade.Release.{Release, ResolveError, resolve, is_same}
use omnistat.Upgrade.Machine.{Machine, Installation, InstallerError, service_unsupported, no_rights}
use omnistat.Upgrade.Fetch.{FetchError, fetch_binary, stage}

-- The flags of `omnistat upgrade`, how many arguments follow them, and the platform.
pub record Options : Type 0 where
  pub check : Bool
  pub dry_run : Bool
  pub want : Bytes
  pub arguments : ℕ
  pub goos : Bytes
  pub goarch : Bytes
  pub stage_dir : Bytes

pub data Failure (E : Type 0) : Type 0 where
  no_installer : E → Failure E
  bad_releases_url : Bytes → Failure E
  not_resolved : ResolveError E → Failure E
  not_staged : E → Failure E
  not_fetched : FetchError E → Failure E
  does_not_run : E → Failure E
  reports_another : Bytes → Failure E
  not_moved : E → Failure E

-- How the command ends. After the handover there are the error of running the binary, and the
-- exit status of its installation.
pub data End (E : Type 0) : Type 0 where
  usage : End E
  unsupported : End E
  not_installed : End E
  failed : Failure E → End E
  up_to_date : End E
  installed_is_newer : End E
  available : Version → End E
  not_run : E → End E
  ended_with : ℕ → End E

-- ParseVersionOutput
unfoldable pub parse_version_output : Bytes → Option Version
unfolding fields parse_version
parse_version_output out = elim (fields out) [
  | [] ↦ none
  | name ∷ rest ↦ elim rest [
    | [] ↦ none
    | v ∷ more ↦ elim more [
      | [] ↦ if bytes_eq name (codes "omnistat") then parse_version v else none
      | _ ∷ _ ↦ none
    ]
  ]
]

unfoldable pub exit_code : {E : Type 0} → End E → ℕ
exit_code usage = 1
exit_code unsupported = 1
exit_code not_installed = 1
exit_code (failed f) = 1
exit_code up_to_date = 0
exit_code installed_is_newer = 0
exit_code (available v) = 2
exit_code (not_run e) = 1
exit_code (ended_with n) = n

unfoldable pub end_of : {E : Type 0} → Result E ℕ → End E
end_of (err e) = not_run e
end_of (ok code) = ended_with code

unfoldable pub is_empty : Bytes → Bool
is_empty [] = true
is_empty (c ∷ s) = false

-- How the release compares with the installed one; any is newer than an unknown one.
unfoldable pub against : Release → Option Version → Ordering
unfolding compare_versions
against rel none = Ordering.gt
against rel (some installed) = compare_versions rel.version installed

unfoldable pub decide_by : {E : Type 0} → Options → Release → Ordering → Option (End E)
unfolding is_empty
decide_by o rel Ordering.eq = some up_to_date
decide_by o rel Ordering.lt =
    if is_empty o.want
    then some installed_is_newer
    else if o.check
    then some (available rel.version)
    else none
decide_by o rel Ordering.gt = if o.check then some (available rel.version) else none

-- The end without a download, if there is one.
unfoldable pub decide : {E : Type 0} → Options → Release → Option Version → Option (End E)
unfolding against decide_by
decide o rel installed = decide_by o rel (against rel installed)

-- `Aside`
record Aside : Type 0 where
  self : Bytes
  moved : Bytes
  stage : Bytes

-- The downloaded binary reports the version of the release.
unfoldable pub reports : Release → Bytes → Bool
unfolding parse_version_output compare_versions
reports rel out = elim (parse_version_output out) [
  | none ↦ false
  | some got ↦ is_same (compare_versions got rel.version)
]

module _ {S E : Type 0} (m : Machine S E) (o : Options) where
  -- `RunsFrom`
  runs_from : Bytes → Bytes → Bool
  runs_from self binary =
      bytes_eq o.goos (codes "windows") && m.equal_fold (m.clean self) (m.clean binary)

  -- `StepAside`
  step_aside : Bytes → Bytes → S → Result E Aside × S
  step_aside self stage s =
      let moved = m.join stage (codes "omnistat-previous" ++ m.ext self) in
      let (r, s') = m.rename self moved s in
      elim r [
        | some e ↦ (err e, s')
        | none ↦ (ok (record { self = self; moved = moved; stage = stage }), s')
      ]

  -- `Finish`: what it reports is only printed.
  finish : Option Aside → S → S
  finish none s = s
  finish (some a) s =
      let (there, s') = m.exists a.self s in
      if there then (m.remove_at_restart a.moved a.stage s').1 else (m.rename a.moved a.self s').1

  unfoldable pub install_args : List Bytes
  install_args =
      codes "service" ∷ codes "install" ∷ (if o.dry_run then codes "--dry-run" ∷ [] else [])

  hand_over : Bytes → Option Aside → S → End E × S
  unfolding finish install_args end_of
  hand_over bin aside s = let (r, s1) = m.install bin install_args s in (end_of r, finish aside s1)

  -- The running binary makes way where it is the installed one.
  pub make_way : Installation → Bytes → Bytes → S → End E × S
  unfolding runs_from step_aside hand_over
  make_way i stage bin s =
      let (program, s1) = m.executable s in
      elim program [
        | none ↦ hand_over bin none s1
        | some self ↦ elim (not o.dry_run && runs_from self i.binary) [
          | false ↦ hand_over bin none s1
          | true ↦
              let (r, s2) = step_aside self stage s1 in
              elim r [ err e ↦ (failed (not_moved e), s2) | ok a ↦ hand_over bin (some a) s2 ]
        ]
      ]

  -- The downloaded binary is run for its version.
  try_binary : Installation → Release → Bytes → Bytes → S → End E × S
  unfolding make_way reports
  try_binary i rel stage bin s =
      let (out, e, s') = m.version bin s in
      elim e [
        | some x ↦ (failed (does_not_run x), s')
        | none ↦ elim (reports rel out) [
          | false ↦ (failed (reports_another out), s')
          | true ↦ make_way i stage bin s'
        ]
      ]

  in_stage : Installation → Release → Bytes → S → End E × S
  unfolding try_binary fetch_binary
  in_stage i rel stage s =
      let (r, s') = fetch_binary m rel stage o.goos s in
      elim r [ err e ↦ (failed (not_fetched e), s') | ok bin ↦ try_binary i rel stage bin s' ]

  -- The staging directory is removed at the end in any case.
  replace : Installation → Release → S → End E × S
  unfolding in_stage stage is_empty
  replace i rel s =
      let dir = if is_empty o.stage_dir then m.dir i.binary else o.stage_dir in
      let (r, s1) = stage m dir s in
      elim r [
        | err e ↦ (failed (not_staged e), s1)
        | ok path ↦ let (end, s2) = in_stage i rel path s1 in (end, m.remove_all path s2)
      ]

  with_release : Installation → Release → Option Version → S → End E × S
  unfolding decide replace
  with_release i rel installed s = elim (decide {E = E} o rel installed) [
    | some end ↦ (end, s)
    | none ↦ replace i rel s
  ]

  -- The version of the installed service, and the release.
  look_for : Installation → Bytes → S → End E × S
  unfolding with_release resolve parse_version_output
  look_for i base s =
      let (out, _, s1) = m.version i.binary s in
      let (r, s2) = resolve m.fetch base o.want o.goos o.goarch s1 in
      elim r [
        | err e ↦ (failed (not_resolved e), s2)
        | ok rel ↦ with_release i rel (parse_version_output out) s2
      ]

  refused : InstallerError E → End E
  refused service_unsupported = unsupported
  refused (no_rights e) = failed (no_installer e)

  with_installer : Result Bytes Bytes → Result (InstallerError E) Installation → S → End E × S
  unfolding look_for refused
  with_installer releases_url (err e) s = (refused e, s)
  with_installer releases_url (ok i) s = elim i.exists [
    | false ↦ (not_installed, s)
    | true ↦ elim releases_url [
      | err e ↦ (failed (bad_releases_url e), s)
      | ok base ↦ look_for i base s
    ]
  ]

  -- `upgrade`; the location of the releases is settled by `ReleasesURL`.
  unfoldable pub upgrade : Result Bytes Bytes → S → End E × S
  unfolding with_installer
  upgrade releases_url s =
      let (r, s') = m.installation s in
      let rest = with_installer releases_url r s' in
      if ltb 0 o.arguments || (o.check && o.dry_run) then (usage, s) else rest
