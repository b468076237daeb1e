-- ===== src/Tests/Command.antt =====
-- A run of internal/cli/upgrade.go on a machine that counts installations, from a location with one
-- release.
use omnistat.Prelude.{
  ℕ, suc, Bool, true, false, Bytes, codes, bytes_eq, bytes_Eq, lookup, insert, [], ◌∷◌, ◌++◌, none,
  some, ◌≡◌, ◌⊎◌, refl, if◌then◌else◌,
}
use omnistat.Settle.{Result, ok, err}
use omnistat.Strconv.{pos}
use omnistat.Upgrade.Http.{Response}
use omnistat.Upgrade.Machine.{Machine, Leaves}
use omnistat.Upgrade.Command.{Options, upgrade, available}
use omnistat.Upgrade.Command.Handover.{handed_over, service_install}
use omnistat.Upgrade.Command.Service.{Acts, upgrade-Acts}
use omnistat.Upgrade.Command.Verified.{Proven, watched, upgrade-Proven}

abbrev hash : Bytes
hash = codes "0123456789abcdef0123456789abcdef0123456789abcdef0123456789abcdef"

abbrev respond : Bytes → Response ℕ
respond content = record {
  status = 200;
  content_length = none;
  body = record { content = content; failure = none };
}

abbrev sums_url : Bytes
sums_url = codes "https://example.org/latest/download/checksums.txt"

abbrev sums : Bytes
sums = hash ++ codes "  omnistat_0.6.0_linux_amd64.tar.gz"

-- The installed program is 0.5.0, and any other one 0.6.0. The state is how often something was
-- installed.
abbrev machine : Machine ℕ ℕ
machine = record {
  join = λ a b. a ++ b'/' ∷ b;
  clean = λ p. p;
  dir = λ p. codes "/usr/bin";
  ext = λ p. [];
  equal_fold = bytes_eq;
  sha256_hex = λ c. hash;
  read_tar = λ c. ok (record {
    entries =
        record {
          name = codes "omnistat";
          regular = true;
          open_error = none;
          body = record { content = c; failure = none };
        }
        ∷ [];
    broken = none;
  });
  read_zip = λ c. err 0;
  create = λ p n. (none, n);
  write = λ p c n. (none, n);
  read_file = λ p n. (ok (codes "archive"), n);
  exists = λ p n. (true, n);
  remove = λ p n. n;
  rename = λ p q n. (none, n);
  glob = λ p n. ([], n);
  remove_all = λ p n. n;
  make_temp = λ p q n. (ok (codes "/usr/bin/.omnistat-upgrade-1"), n);
  remove_at_restart = λ p q n. (none, n);
  executable = λ n. (some (codes "/usr/bin/omnistat"), n);
  fetch = λ u n. (ok (if bytes_eq u sums_url then respond sums else respond (codes "archive")), n);
  installation =
      λ n. (ok (record { exists = true; binary = codes "/usr/bin/omnistat"; settings = [] }), n);
  version = λ b n. (
    if bytes_eq b (codes "/usr/bin/omnistat")
        then codes "omnistat v0.5.0\n"
        else codes "omnistat v0.6.0\n",
    none,
    n,
  );
  install = λ b args n. (ok 0, suc n);
}

abbrev how_many : ℕ → ℕ
how_many n = n

counted : Leaves machine how_many
counted = record {
  create = λ p s. refl;
  write = λ p c s. refl;
  read_file = λ p s. refl;
  exists = λ p s. refl;
  remove = λ p s. refl;
  rename = λ p q s. refl;
  glob = λ p s. refl;
  remove_all = λ p s. refl;
  make_temp = λ p q s. refl;
  remove_at_restart = λ p q s. refl;
  executable = λ s. refl;
  fetch = λ u s. refl;
  installation = λ s. refl;
  version = λ b s. refl;
}

abbrev options : Bool → Options
options check = record {
  check = check;
  dry_run = false;
  want = [];
  arguments = 0;
  goos = codes "linux";
  goarch = codes "amd64";
  stage_dir = [];
}

abbrev location : Result Bytes Bytes
location = ok (codes "https://example.org")

upgrade-Acts_example :
    Acts machine (options false) how_many 0 (upgrade machine (options false) location 0)
upgrade-Acts_example = upgrade-Acts machine (options false) how_many counted location 0

upgrade-Proven_example :
    let (end, (_, log)) = upgrade (watched machine) (options false) location (0, []) in
    ((log ≡ []) × (handed_over end ≡ false))
    ⊎ ((bin : Bytes) × (log ≡ (bin, service_install false) ∷ [])
        × Proven (watched machine) (options false) location (0, []) bin)
upgrade-Proven_example = upgrade-Proven machine (options false) location 0

-- The unpacked binary is installed.
handed :
    (upgrade (watched machine) (options false) location (0, [])).1.1
    ≡ (codes "/usr/bin/.omnistat-upgrade-1/omnistat", service_install false) ∷ []
unfolding upgrade bytes_eq lookup insert
handed = refl

only_checked :
    upgrade machine (options true) location 0
    ≡ (available (record { major = pos 0; minor = pos 6; patch = pos 0; pre = [] }), 0)
unfolding upgrade bytes_eq lookup insert
only_checked = refl
