-- ===== src/Collect/Sample.antt =====
-- internal/collect/buffer.go: samples, the entities they belong to, batches and acknowledgements.
use omnistat.Prelude.{
  ℕ, Bool, true, Bytes, bytes_eq, bytes_eq_iff, Eq, Map, List, [], ◌≡◌, ◌↔◌, ◌&&◌, arith,
}
use omnistat.Manifest.{Kind, is_metric_kind}
use omnistat.Values.{Value}

pub record Target : Type 0 where
  pub module_name : Bytes
  pub template : Bytes
  pub key : Bytes

-- The zero value: the host entity.
abbrev pub host : Target
host = record { module_name = []; template = []; key = [] }

unfoldable pub target_eq : Target → Target → Bool
target_eq a b =
    bytes_eq a.module_name b.module_name && (bytes_eq a.template b.template && bytes_eq a.key b.key)

pub target_eq_iff : (a b : Target) → (target_eq a b ≡ true) ↔ (a ≡ b)
unfolding target_eq
target_eq_iff a b = (
  λ h. ground (
    arith,
    bytes_eq_iff a.module_name b.module_name,
    bytes_eq_iff a.template b.template,
    bytes_eq_iff a.key b.key,
  ),
  λ h. ground (
    arith,
    bytes_eq_iff a.module_name b.module_name,
    bytes_eq_iff a.template b.template,
    bytes_eq_iff a.key b.key,
  ),
)

instance abbrev pub target_Eq : Eq Target
target_Eq = record { beq = target_eq; beq_iff = target_eq_iff }

unfoldable pub is_host : Target → Bool
unfolding target_eq
is_host t = target_eq t host

pub record Sample : Type 0 where
  pub module_name : Bytes
  pub key : Bytes
  pub slug : Bytes
  pub kind : Kind
  pub value : Value
  pub at : ℕ
  pub target : Target

unfoldable pub is_metric : Sample → Bool
unfolding is_metric_kind
is_metric s = is_metric_kind s.kind

pub record Batch : Type 0 where
  pub dims : List Sample
  pub metrics : List Sample
  pub start : Map Bytes ℕ

pub record Ack : Type 0 where
  pub dims : List Bytes
  pub metrics : Map Bytes ℕ
