-- ===== src/Upgrade/Command/Chain.antt =====
-- internal/cli/upgrade.go: how a binary comes to be handed the installation.
use omnistat.Prelude.{true, Bytes, Option, none, ◌≡◌, if◌then◌else◌}
use omnistat.Settle.{Result, ok}
use omnistat.Upgrade.Version.{Version}
use omnistat.Upgrade.Release.{Release, resolve}
use omnistat.Upgrade.Machine.{Machine, Installation, InstallerError}
use omnistat.Upgrade.Fetch.{fetch_binary, stage}
use omnistat.Upgrade.Command.{is_empty, parse_version_output, Options, reports, decide}

-- How a binary comes to be handed the installation, from the state of each step on.
module _ {S E : Type 0} (m : Machine S E) (o : Options) where
  abbrev pub Ran : Release → S → Bytes → Type 0
  Ran rel s bin = ((m.version bin s).1 ≡ none) × (reports rel (m.version bin s).0 ≡ true)

  abbrev pub Fetched : Release → Bytes → S → Bytes → Type 0
  Fetched rel path s bin =
      let (r, s') = fetch_binary m rel path o.goos s in (r ≡ ok bin) × Ran rel s' bin

  abbrev pub stage_dir : Installation → Bytes
  stage_dir i = if is_empty o.stage_dir then m.dir i.binary else o.stage_dir

  abbrev pub Staged : Installation → Release → S → Bytes → Type 0
  Staged i rel s bin =
      let (r, s') = stage m (stage_dir i) s in
      (path : Bytes) × (r ≡ ok path) × Fetched rel path s' bin

  abbrev pub Decided : Installation → Release → Option Version → S → Bytes → Type 0
  Decided i rel installed s bin = (decide {E = E} o rel installed ≡ none) × Staged i rel s bin

  abbrev pub Found : Installation → Bytes → S → Bytes → Type 0
  Found i base s bin =
      let (out, _, s1) = m.version i.binary s in
      let (r, s2) = resolve m.fetch base o.want o.goos o.goarch s1 in
      (rel : Release) × (r ≡ ok rel) × Decided i rel (parse_version_output out) s2 bin

  abbrev pub Installed :
      Result Bytes Bytes → Result (InstallerError E) Installation → S → Bytes → Type 0
  Installed releases_url r s bin =
      (i : Installation) × (base : Bytes) × (r ≡ ok i)
      × (i.exists ≡ true)
      × (releases_url ≡ ok base)
      × Found i base s bin

  abbrev pub Chain : Result Bytes Bytes → S → Bytes → Type 0
  Chain releases_url s bin = let (r, s') = m.installation s in Installed releases_url r s' bin
