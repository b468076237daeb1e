-- ===== src/Upgrade/Command/Service.antt =====
-- internal/cli/upgrade.go: what the command does to the installed service.
use omnistat.Prelude.{
  false, ◌&&◌, ◌||◌, Bytes, Option, ◌≡◌, refl, ◌∙◌, ◌⊎◌, inl, inr, Bool-cases, Option-cases,
  if◌then◌else◌, ltb,
}
use omnistat.Settle.{Result, ok, err, Result-cases}
use omnistat.Upgrade.Version.{Version}
use omnistat.Upgrade.Release.{Release, resolve}
use omnistat.Upgrade.Machine.{
  Machine, Leaves, Installation, InstallerError, service_unsupported, no_rights,
}
use omnistat.Upgrade.Fetch.Quiet.{fetch_binary-view, resolve-view, stage-view}
use omnistat.Upgrade.Fetch.{fetch_binary, stage}
use omnistat.Upgrade.Command.{
  End, failed, does_not_run, reports_another, not_fetched, not_staged, not_resolved, usage,
  is_empty, parse_version_output, Options, reports, decide, against, refused, with_installer,
  unsupported, no_installer, not_installed, bad_releases_url, in_stage, look_for, replace,
  try_binary, upgrade, with_release,
}
use omnistat.Upgrade.Command.Chain.{Ran, Fetched, Staged, Decided, Found, Installed, Chain}
use omnistat.Upgrade.Command.Handover.{
  handed_over, decide_by-ends, service_install, Follows, ActsBy, goes_on, ends, make_way-ActsBy,
}

module _ {S E V : Type 0} (m : Machine S E) (o : Options) (view : S → V) (l : Leaves m view)
    (P : Bytes → Type 0) where
  try_binary-ActsBy :
      (i : Installation) (rel : Release) (path bin : Bytes) (s : S)
      → (Ran m o rel s bin → P bin)
      → ActsBy m o view P (view s) (try_binary m o i rel path bin s)
  unfolding try_binary handed_over
  try_binary-ActsBy i rel path bin s k =
      let (out, failure, s') = m.version bin s in
      let same = l.version bin s in
      elim (Option-cases failure) [
        | inr (x, e) ↦
            ends m o view P _ (failed (does_not_run x)) s' _ refl same (rw (e, try_binary) refl)
        | inl e ↦ elim (Bool-cases (reports rel out)) [
          | inr b ↦
              ends m o view P _ (failed (reports_another out)) s' _ refl same
                (rw (e, b, try_binary) refl)
          | inl b ↦
              goes_on m o view P _ s' _ _ same (rw (e, b, try_binary) refl)
                (make_way-ActsBy m o view l P i path bin s' (k (e, b)))
        ]
      ]

  in_stage-ActsBy :
      (i : Installation) (rel : Release) (path : Bytes) (s : S)
      → ((bin : Bytes) → Fetched m o rel path s bin → P bin)
      → ActsBy m o view P (view s) (in_stage m o i rel path s)
  unfolding in_stage handed_over
  in_stage-ActsBy i rel path s k =
      let (r, s') = fetch_binary m rel path o.goos s in
      let same = fetch_binary-view m view l rel path o.goos s in
      elim (Result-cases r) [
        | inl (x, e) ↦
            ends m o view P _ (failed (not_fetched x)) s' _ refl same (rw (e, in_stage) refl)
        | inr (bin, e) ↦
            goes_on m o view P _ s' _ _ same (rw (e, in_stage) refl)
              (try_binary-ActsBy i rel path bin s' (λ q. k bin (e, q)))
      ]

  -- What is removed behind a step does not count.
  ActsBy-after :
      (v : V) (r : End E × S) (s : S)
      → view s ≡ view r.1
      → ActsBy m o view P v r
      → ActsBy m o view P v (r.0, s)
  ActsBy-after v r s same (inl (h, n)) = inl (same ∙ h, n)
  ActsBy-after v r s same (inr (bin, at, p, h, end, after)) = inr (bin, at, p, h, end, same ∙ after)

  replace-ActsBy :
      (i : Installation) (rel : Release) (s : S)
      → ((bin : Bytes) → Staged m o i rel s bin → P bin)
      → ActsBy m o view P (view s) (replace m o i rel s)
  unfolding replace handed_over
  replace-ActsBy i rel s k =
      let dir = if is_empty o.stage_dir then m.dir i.binary else o.stage_dir in
      let (r, s1) = stage m dir s in
      let same = stage-view m view l dir s in
      elim (Result-cases r) [
        | inl (x, e) ↦
            ends m o view P _ (failed (not_staged x)) s1 _ refl same (rw (e, replace) refl)
        | inr (path, e) ↦
            let q = in_stage m o i rel path s1 in
            let done : End E × S = (q.0, m.remove_all path q.1) in
            goes_on m o view P _ s1 _ done same (rw (e, replace) refl) (
              ActsBy-after _ q (m.remove_all path q.1) (l.remove_all path q.1)
                (in_stage-ActsBy i rel path s1 (λ bin q. k bin (path, e, q))))
      ]

  with_release-ActsBy :
      (i : Installation) (rel : Release) (installed : Option Version) (s : S)
      → ((bin : Bytes) → Decided m o i rel installed s bin → P bin)
      → ActsBy m o view P (view s) (with_release m o i rel installed s)
  unfolding with_release
  with_release-ActsBy i rel installed s k = elim (Option-cases (decide {E = E} o rel installed)) [
    | inr (end, e) ↦
        ends m o view P _ end s _
          (decide_by-ends o rel (against rel installed) end (unfold decide in e)) refl
          (rw (e, with_release) refl)
    | inl e ↦
        goes_on m o view P _ s _ _ refl (rw (e, with_release) refl)
          (replace-ActsBy i rel s (λ bin q. k bin (e, q)))
  ]

  look_for-ActsBy :
      (i : Installation) (base : Bytes) (s : S)
      → ((bin : Bytes) → Found m o i base s bin → P bin)
      → ActsBy m o view P (view s) (look_for m o i base s)
  unfolding look_for handed_over
  look_for-ActsBy i base s k =
      let s1 = (m.version i.binary s).2 in
      let (r, s2) = resolve m.fetch base o.want o.goos o.goarch s1 in
      let same = resolve-view m view l base o.want o.goos o.goarch s1 ∙ l.version i.binary s in
      elim (Result-cases r) [
        | inl (x, e) ↦
            ends m o view P _ (failed (not_resolved x)) s2 _ refl same (rw (e, look_for) refl)
        | inr (rel, e) ↦ goes_on m o view P _ s2 _ _ same (rw (e, look_for) refl) (
            with_release-ActsBy i rel (parse_version_output (m.version i.binary s).0) s2
              (λ bin q. k bin (rel, e, q)))
      ]

  with_installer-ActsBy :
      (releases_url : Result Bytes Bytes) (r : Result (InstallerError E) Installation) (s : S)
      → ((bin : Bytes) → Installed m o releases_url r s bin → P bin)
      → ActsBy m o view P (view s) (with_installer m o releases_url r s)
  unfolding with_installer handed_over
  with_installer-ActsBy releases_url (err service_unsupported) s k =
      ends m o view P _ unsupported s _ refl refl (unfold refused in refl)
  with_installer-ActsBy releases_url (err (no_rights x)) s k =
      ends m o view P _ (failed (no_installer x)) s _ refl refl (unfold refused in refl)
  with_installer-ActsBy (err x) (ok i) s k = elim (Bool-cases i.exists) [
    | inr n ↦ ends m o view P _ not_installed s _ refl refl (rw (n, with_installer) refl)
    | inl y ↦
        ends m o view P _ (failed (bad_releases_url x)) s _ refl refl (rw (y, with_installer) refl)
  ]
  with_installer-ActsBy (ok base) (ok i) s k = elim (Bool-cases i.exists) [
    | inr n ↦ ends m o view P _ not_installed s _ refl refl (rw (n, with_installer) refl)
    | inl y ↦
        goes_on m o view P _ s _ _ refl (rw (y, with_installer) refl)
          (look_for-ActsBy i base s (λ bin q. k bin (i, base, refl, y, refl, q)))
  ]

  pub upgrade-ActsBy :
      (releases_url : Result Bytes Bytes) (s : S)
      → ((bin : Bytes) → Chain m o releases_url s bin → P bin)
      → ActsBy m o view P (view s) (upgrade m o releases_url s)
  unfolding upgrade handed_over
  upgrade-ActsBy releases_url s k =
      elim (Bool-cases (ltb 0 o.arguments || (o.check && o.dry_run))) [
        | inl u ↦ ends m o view P _ usage s _ refl refl (rw (u, upgrade) refl)
        | inr u ↦
            let (r, s') = m.installation s in
            goes_on m o view P _ s' _ (with_installer m o releases_url r s') (l.installation s)
              (rw (u, upgrade) refl) (with_installer-ActsBy releases_url r s' k)
      ]

module _ {S E V : Type 0} (m : Machine S E) (o : Options) (view : S → V) where
  -- The service is left alone, or `service install` of one binary is run once, on the service as
  -- it was, and decides the end.
  abbrev pub Acts : V → End E × S → Type 0
  Acts v r =
      ((view r.1 ≡ v) × (handed_over r.0 ≡ false))
      ⊎ ((bin : Bytes) × (at : S) × (view at ≡ v)
          × Follows (m.install bin (service_install o.dry_run) at).0 r.0
          × (view r.1 ≡ view (m.install bin (service_install o.dry_run) at).1))

  -- If only `service install` changes what the service manager knows of the service, the command
  -- either leaves that as it is and ends before the handover, or runs one binary with the
  -- arguments `service install`, and `--dry-run` in a dry run, on the service as it was, after
  -- which nothing else changes it, and ends as that run did: with its exit status, or with 1 if it
  -- could not be started.
  pub upgrade-Acts :
      (l : Leaves m view) (releases_url : Result Bytes Bytes) (s : S)
      → Acts (view s) (upgrade m o releases_url s)
  upgrade-Acts l releases_url s =
      elim (upgrade-ActsBy m o view l (Chain m o releases_url s) releases_url s (λ bin c. c)) [
        | inl h ↦ inl h
        | inr (bin, at, p, same, follows, after) ↦ inr (bin, at, same, follows, after)
      ]
