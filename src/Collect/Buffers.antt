-- ===== src/Collect/Buffers.antt =====
-- internal/collect/buffers.go: the host's buffer and a buffer for each module-owned entity. What
-- happens to a buffer through its pointer is written back to its entry.
pub mod Cap
pub mod Isolation
pub mod Distinct
use omnistat.Prelude.{
  ℕ, ◌+◌, Bool, true, false, ◌&&◌, Bytes, bytes_eq, bytes_lt, bytes_Eq, Map, lookup, insert, List,
  [], ◌∷◌, ◌++◌, Option, none, some, leb, if◌then◌else◌, sort,
}
use omnistat.Collect.Sample.{Target, target_Eq, host, is_host, Sample}
use omnistat.Collect.Buffer.{Buffer, new_buffer, is_empty, take_drops, or_zero, add as buffer_add}

abbrev pub max_keys_per_module : ℕ
max_keys_per_module = 256

pub record Buffers : Type 0 where
  pub max : ℕ
  pub host_buffer : Buffer
  pub targets : Map Target Buffer
  pub keys : Map Bytes ℕ
  pub warned : Map Bytes Bool

unfoldable pub new_buffers : ℕ → Buffers
new_buffers max = record {
  max = max;
  host_buffer = new_buffer max;
  targets = [];
  keys = [];
  warned = [];
}

-- The number of targets that a module has created.
abbrev pub keys_of : Buffers → Bytes → ℕ
keys_of b name = or_zero (lookup name b.keys)

-- A sample for a target that has no buffer yet.
unfoldable pub add_new : Buffers → Sample → Buffers
add_new b s =
    let name = s.target.module_name in
    if leb max_keys_per_module (keys_of b name)
    then record b { warned = insert name true b.warned }
    else record b {
      targets = insert s.target (buffer_add (new_buffer b.max) s) b.targets;
      keys = insert name (keys_of b name + 1) b.keys;
    }

unfoldable pub add : Buffers → Sample → Buffers
add b s =
    if is_host s.target
    then record b { host_buffer = buffer_add b.host_buffer s }
    else elim (lookup s.target b.targets) [
      | some buf ↦ record b { targets = insert s.target (buffer_add buf s) b.targets }
      | none ↦ add_new b s
    ]

unfoldable pub for_target : Buffers → Target → Option Buffer
for_target b t = lookup t b.targets

unfoldable pub target_keys : Map Target Buffer → List Target
target_keys [] = []
target_keys ((t, b) ∷ m) = t ∷ target_keys m

unfoldable pub target_lt : Target → Target → Bool
target_lt a c =
    if bytes_eq a.module_name c.module_name
    then if bytes_eq a.template c.template
      then bytes_lt a.key c.key
      else bytes_lt a.template c.template
    else bytes_lt a.module_name c.module_name

unfoldable pub targets : Buffers → List Target
targets b = sort target_lt (target_keys b.targets)

abbrev is_empty_at : Option Buffer → Bool
is_empty_at none = true
is_empty_at (some buf) = is_empty buf

unfoldable pub all_empty : Buffers → List Target → Bool
all_empty b [] = true
all_empty b (t ∷ ts) = is_empty_at (for_target b t) && all_empty b ts

unfoldable pub empty_all : Buffers → Bool
empty_all b = is_empty b.host_buffer && all_empty b (targets b)

pub record Drop : Type 0 where
  pub target : Target
  pub slug : Bytes
  pub dropped : ℕ

unfoldable pub slugs_of : Map Bytes ℕ → List Bytes
slugs_of [] = []
slugs_of ((slug, n) ∷ m) = slug ∷ slugs_of m

unfoldable pub list_drops : Target → Map Bytes ℕ → List Bytes → List Drop
list_drops t m [] = []
list_drops t m (slug ∷ slugs) =
    record { target = t; slug = slug; dropped = or_zero (lookup slug m) } ∷ list_drops t m slugs

unfoldable pub drops_of : Target → Map Bytes ℕ → List Drop
drops_of t m = list_drops t m (sort bytes_lt (slugs_of m))

unfoldable pub take_target_drops : List Target → Buffers → List Drop × Buffers
take_target_drops [] b = ([], b)
take_target_drops (t ∷ ts) b = elim (for_target b t) [
  | none ↦ take_target_drops ts b
  | some buf ↦
      let (m, buf') = take_drops buf in
      let (rest, b') = take_target_drops ts (record b { targets = insert t buf' b.targets }) in
      (drops_of t m ++ rest, b')
]

unfoldable pub take_all_drops : Buffers → List Drop × Buffers
take_all_drops b =
    let (m, h) = take_drops b.host_buffer in
    let (rest, b') = take_target_drops (targets b) (record b { host_buffer = h }) in
    (drops_of host m ++ rest, b')
