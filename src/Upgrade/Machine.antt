-- ===== src/Upgrade/Machine.antt =====
-- What internal/upgrade and internal/cli/upgrade.go ask of the machine: files, archives, programs
-- and the network. `S` is the state of the machine and `E` the errors that it reports.
use omnistat.Prelude.{ℕ, Bool, Bytes, List, Map, Option, ◌≡◌}
use omnistat.Settle.{Result}
use omnistat.Upgrade.Http.{Body, Response}

-- A file of an archive. A file of a .zip may fail to open.
pub record Entry (E : Type 0) : Type 0 where
  pub name : Bytes
  pub regular : Bool
  pub open_error : Option E
  pub body : Body E

-- The files of an archive, and the error that ends them.
pub record Archive (E : Type 0) : Type 0 where
  pub entries : List (Entry E)
  pub broken : Option E

-- internal/service/plan.go, `Installation`
pub record Installation : Type 0 where
  pub exists : Bool
  pub binary : Bytes
  pub settings : Map Bytes Bytes

pub data InstallerError (E : Type 0) : Type 0 where
  service_unsupported : InstallerError E
  no_rights : E → InstallerError E

pub record Machine (S E : Type 0) : Type 0 where
  pub join : Bytes → Bytes → Bytes
  pub clean : Bytes → Bytes
  pub dir : Bytes → Bytes
  pub ext : Bytes → Bytes
  pub equal_fold : Bytes → Bytes → Bool
  pub sha256_hex : Bytes → Bytes
  pub read_tar : Bytes → Result E (Archive E)
  pub read_zip : Bytes → Result E (Archive E)
  -- A new file is opened, and written and closed.
  pub create : Bytes → S → Option E × S
  pub write : Bytes → Bytes → S → Option E × S
  pub read_file : Bytes → S → Result E Bytes × S
  pub exists : Bytes → S → Bool × S
  pub remove : Bytes → S → S
  pub rename : Bytes → Bytes → S → Option E × S
  pub glob : Bytes → S → List Bytes × S
  pub remove_all : Bytes → S → S
  pub make_temp : Bytes → Bytes → S → Result E Bytes × S
  pub remove_at_restart : Bytes → Bytes → S → Option E × S
  pub executable : S → Option Bytes × S
  pub fetch : Bytes → S → Result E (Response E) × S
  pub installation : S → Result (InstallerError E) Installation × S
  pub version : Bytes → S → Bytes × Option E × S
  pub install : Bytes → List Bytes → S → Result E ℕ × S

-- What the service manager knows of the service: no file operation, no request and no run of
-- `omnistat version` changes it.
pub record Leaves {S E V : Type 0} (m : Machine S E) (view : S → V) : Type 0 where
  pub create : (p : Bytes) (s : S) → view (m.create p s).1 ≡ view s
  pub write : (p c : Bytes) (s : S) → view (m.write p c s).1 ≡ view s
  pub read_file : (p : Bytes) (s : S) → view (m.read_file p s).1 ≡ view s
  pub exists : (p : Bytes) (s : S) → view (m.exists p s).1 ≡ view s
  pub remove : (p : Bytes) (s : S) → view (m.remove p s) ≡ view s
  pub rename : (p q : Bytes) (s : S) → view (m.rename p q s).1 ≡ view s
  pub glob : (p : Bytes) (s : S) → view (m.glob p s).1 ≡ view s
  pub remove_all : (p : Bytes) (s : S) → view (m.remove_all p s) ≡ view s
  pub make_temp : (p q : Bytes) (s : S) → view (m.make_temp p q s).1 ≡ view s
  pub remove_at_restart : (p q : Bytes) (s : S) → view (m.remove_at_restart p q s).1 ≡ view s
  pub executable : (s : S) → view (m.executable s).1 ≡ view s
  pub fetch : (u : Bytes) (s : S) → view (m.fetch u s).1 ≡ view s
  pub installation : (s : S) → view (m.installation s).1 ≡ view s
  pub version : (b : Bytes) (s : S) → view (m.version b s).2 ≡ view s
