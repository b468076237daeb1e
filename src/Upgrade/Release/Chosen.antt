-- ===== src/Upgrade/Release/Chosen.antt =====
-- internal/upgrade/release.go, `Resolve`: what is known of the archive that it chooses.
use Prim.Native.Nat.{Ordering}
use omnistat.Prelude.{Bytes, bytes_Eq, codes, Map, lookup, ◌∷◌, ◌++◌, Option, some, ◌≡◌}
use omnistat.Upgrade.Version.{Version, version_string, compare_versions}
use omnistat.Upgrade.Release.{Release, asset_name}

module _ (base : Bytes) (pinned : Option Version) (goos goarch : Bytes) where
  -- The archive has this platform's name of its version, which a pinned one compares equal to, and
  -- it is downloaded from that version's own place.
  abbrev pub Fitting : Release → Type 0
  Fitting r =
      (r.asset ≡ asset_name r.version goos goarch)
      × ((p : Version) → pinned ≡ some p → compare_versions r.version p ≡ Ordering.eq)
      × (r.archive_url
          ≡ base ++ (codes "/download/" ++ (version_string r.version ++ b'/' ∷ r.asset)))

  -- Its hash is the one that the checksums list for it.
  abbrev pub Expected : Map Bytes Bytes → Release → Type 0
  Expected sums r = Fitting r × (lookup r.asset sums ≡ some r.sha256)
