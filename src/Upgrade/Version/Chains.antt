-- ===== src/Upgrade/Version/Chains.antt =====
-- internal/upgrade/version.go: the answers of a comparison, and how they fit together in an order.
use Prim.Native.Nat.{compare, Ordering}
use omnistat.Prelude.{ℕ, ◌≡◌, refl, arith}
use omnistat.Upgrade.Version.{and_then}

-- The comparison the other way round.
unfoldable pub flip : Ordering → Ordering
flip Ordering.lt = Ordering.gt
flip Ordering.eq = Ordering.eq
flip Ordering.gt = Ordering.lt

-- How `x` (of a and b) and `y` (of b and c) settle `z` (of a and c) in an order.
unfoldable pub Chain : Ordering → Ordering → Ordering → Type 0
Chain Ordering.eq y z = z ≡ y
Chain Ordering.lt Ordering.gt z = Unit
Chain Ordering.lt _ z = z ≡ Ordering.lt
Chain Ordering.gt Ordering.lt z = Unit
Chain Ordering.gt _ z = z ≡ Ordering.gt

pub flip-and_then : (x y : Ordering) → flip (and_then x y) ≡ and_then (flip x) (flip y)
unfolding flip and_then
flip-and_then Ordering.lt y = refl
flip-and_then Ordering.eq y = refl
flip-and_then Ordering.gt y = refl

pub Chain-lt : (x : Ordering) → Chain Ordering.lt x Ordering.lt × Chain x Ordering.lt Ordering.lt
unfolding Chain
Chain-lt Ordering.lt = (refl, refl)
Chain-lt Ordering.eq = (refl, refl)
Chain-lt Ordering.gt = (tt, tt)

pub Chain-gt : (x : Ordering) → Chain Ordering.gt x Ordering.gt × Chain x Ordering.gt Ordering.gt
unfolding Chain
Chain-gt Ordering.lt = (tt, tt)
Chain-gt Ordering.eq = (refl, refl)
Chain-gt Ordering.gt = (refl, refl)

pub Chain-and_then :
    (x y z x' y' z' : Ordering)
    → Chain x y z
    → Chain x' y' z'
    → Chain (and_then x x') (and_then y y') (and_then z z')
unfolding Chain and_then
Chain-and_then Ordering.eq Ordering.eq z x' y' z' h k = rw h k
Chain-and_then Ordering.eq Ordering.lt z x' y' z' h k = rw h (Chain-lt x').1
Chain-and_then Ordering.eq Ordering.gt z x' y' z' h k = rw h (Chain-gt x').1
Chain-and_then Ordering.lt Ordering.eq z x' y' z' h k = rw h (Chain-lt y').0
Chain-and_then Ordering.lt Ordering.lt z x' y' z' h k = rw h refl
Chain-and_then Ordering.lt Ordering.gt z x' y' z' h k = tt
Chain-and_then Ordering.gt Ordering.eq z x' y' z' h k = rw h (Chain-gt y').0
Chain-and_then Ordering.gt Ordering.lt z x' y' z' h k = tt
Chain-and_then Ordering.gt Ordering.gt z x' y' z' h k = rw h refl

Chain-swap : (x y z : Ordering) → Chain x y z → Chain y x z
unfolding Chain
Chain-swap Ordering.eq Ordering.eq z h = h
Chain-swap Ordering.eq Ordering.lt z h = h
Chain-swap Ordering.eq Ordering.gt z h = h
Chain-swap Ordering.lt Ordering.eq z h = h
Chain-swap Ordering.lt Ordering.lt z h = h
Chain-swap Ordering.lt Ordering.gt z h = tt
Chain-swap Ordering.gt Ordering.eq z h = h
Chain-swap Ordering.gt Ordering.lt z h = tt
Chain-swap Ordering.gt Ordering.gt z h = h

-- The answers that determine another one.
Chain-intro :
    (x y z : Ordering)
    → (x ≡ Ordering.eq → z ≡ y)
    → (y ≡ Ordering.eq → z ≡ x)
    → (x ≡ y → z ≡ x)
    → Chain x y z
unfolding Chain
Chain-intro Ordering.eq y z h k l = h refl
Chain-intro Ordering.lt Ordering.eq z h k l = k refl
Chain-intro Ordering.lt Ordering.lt z h k l = l refl
Chain-intro Ordering.lt Ordering.gt z h k l = tt
Chain-intro Ordering.gt Ordering.eq z h k l = k refl
Chain-intro Ordering.gt Ordering.lt z h k l = tt
Chain-intro Ordering.gt Ordering.gt z h k l = l refl

pub Chain-nat : (a b c : ℕ) → Chain (compare a b) (compare b c) (compare a c)
Chain-nat a b c =
    Chain-intro (compare a b) (compare b c) (compare a c) (λ e. ground (arith, e))
      (λ e. ground (arith, e)) (λ e. ground (arith, e))

pub Chain-nat_back : (a b c : ℕ) → Chain (compare b a) (compare c b) (compare c a)
Chain-nat_back a b c = Chain-swap (compare c b) (compare b a) (compare c a) (Chain-nat c b a)

-- A comparison that is an order: the other way round it is flipped, and its answers fit together.
pub record IsOrder {A : Type 0} (cmp : A → A → Ordering) : Type 0 where
  pub flips : (a b : A) → cmp b a ≡ flip (cmp a b)
  pub chains : (a b c : A) → Chain (cmp a b) (cmp b c) (cmp a c)
