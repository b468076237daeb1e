-- ===== src/Upgrade/Version/Order.antt =====
-- internal/upgrade/version.go: `Compare` as an order.
use Prim.Native.Nat.{compare, Ordering}
use omnistat.Prelude.{
  ℕ, Bytes, bytes_eq, bytes_eq_iff, List, [], ◌∷◌, ◌≡◌, refl, sym, subst, arith, Bool-cases, inl,
  inr, Option, some, none,
}
use omnistat.Strconv.{ℤ, pos, negsuc, atoi}
use omnistat.Upgrade.Version.Chains.{
  flip, Chain, IsOrder, Chain-and_then, Chain-lt, Chain-gt, Chain-nat, Chain-nat_back,
  flip-and_then,
}
use omnistat.Upgrade.Version.{
  Version, and_then, cmp_int, cmp_bytes, number_of, cmp_idents, compare_pre, compare_all,
  compare_pres, compare_versions, split_dots,
}

cmp_int-flip : (a b : ℤ) → cmp_int b a ≡ flip (cmp_int a b)
unfolding cmp_int flip
cmp_int-flip (pos a) (pos b) = ground arith
cmp_int-flip (pos a) (negsuc b) = refl
cmp_int-flip (negsuc a) (pos b) = refl
cmp_int-flip (negsuc a) (negsuc b) = ground arith

cmp_int-Chain : (a b c : ℤ) → Chain (cmp_int a b) (cmp_int b c) (cmp_int a c)
unfolding Chain cmp_int
cmp_int-Chain (pos a) (pos b) (pos c) = Chain-nat a b c
cmp_int-Chain (pos a) (pos b) (negsuc c) = (Chain-gt (compare a b)).1
cmp_int-Chain (pos a) (negsuc b) (pos c) = tt
cmp_int-Chain (pos a) (negsuc b) (negsuc c) = (Chain-gt (compare c b)).0
cmp_int-Chain (negsuc a) (pos b) (pos c) = (Chain-lt (compare b c)).0
cmp_int-Chain (negsuc a) (pos b) (negsuc c) = tt
cmp_int-Chain (negsuc a) (negsuc b) (pos c) = (Chain-lt (compare b a)).1
cmp_int-Chain (negsuc a) (negsuc b) (negsuc c) = Chain-nat_back a b c

cmp_bytes-flip : (s t : Bytes) → cmp_bytes t s ≡ flip (cmp_bytes s t)
unfolding cmp_bytes flip
cmp_bytes-flip [] [] = refl
cmp_bytes-flip [] (b ∷ t) = refl
cmp_bytes-flip (a ∷ s) [] = refl
cmp_bytes-flip (a ∷ s) (b ∷ t) = ground (arith, cmp_bytes-flip s t)

cmp_bytes-step :
    (a b : ℕ) (s t : Bytes) → cmp_bytes (a ∷ s) (b ∷ t) ≡ and_then (compare a b) (cmp_bytes s t)
unfolding cmp_bytes and_then
cmp_bytes-step a b s t =
    elim (compare a b)
      as (λ o.
        (elim o [
          | Ordering.lt ↦ Ordering.lt
          | Ordering.eq ↦ cmp_bytes s t
          | Ordering.gt ↦ Ordering.gt
        ])
        ≡ and_then o (cmp_bytes s t)) [
          | Ordering.lt ↦ refl
          | Ordering.eq ↦ refl
          | Ordering.gt ↦ refl
        ]

cmp_bytes-Chain : (s t u : Bytes) → Chain (cmp_bytes s t) (cmp_bytes t u) (cmp_bytes s u)
cmp_bytes-Chain [] [] u = unfold Chain cmp_bytes in refl
cmp_bytes-Chain [] (b ∷ t) [] = unfold Chain cmp_bytes in tt
cmp_bytes-Chain [] (b ∷ t) (c ∷ u) = unfold cmp_bytes in (Chain-lt (cmp_bytes (b ∷ t) (c ∷ u))).0
cmp_bytes-Chain (a ∷ s) [] [] = unfold Chain cmp_bytes in refl
cmp_bytes-Chain (a ∷ s) [] (c ∷ u) = unfold Chain cmp_bytes in tt
cmp_bytes-Chain (a ∷ s) (b ∷ t) [] = unfold cmp_bytes in (Chain-gt (cmp_bytes (a ∷ s) (b ∷ t))).1
cmp_bytes-Chain (a ∷ s) (b ∷ t) (c ∷ u) =
    rw (cmp_bytes-step a b s t, cmp_bytes-step b c t u, cmp_bytes-step a c s u)
      (Chain-and_then (compare a b) (compare b c) (compare a c) _ _ _ (Chain-nat a b c)
        (cmp_bytes-Chain s t u))

cmp_idents-flip : (m n : Option ℤ) (a b : Bytes) → cmp_idents n m b a ≡ flip (cmp_idents m n a b)
unfolding cmp_idents flip
cmp_idents-flip (some m) (some n) a b = unfold flip in cmp_int-flip m n
cmp_idents-flip (some m) none a b = refl
cmp_idents-flip none (some n) a b = refl
cmp_idents-flip none none a b = cmp_bytes-flip a b

cmp_idents-Chain :
    (l m n : Option ℤ) (a b c : Bytes)
    → Chain (cmp_idents l m a b) (cmp_idents m n b c) (cmp_idents l n a c)
unfolding cmp_idents
cmp_idents-Chain (some l) (some m) (some n) a b c = cmp_int-Chain l m n
cmp_idents-Chain (some l) (some m) none a b c = (Chain-lt (cmp_int l m)).1
cmp_idents-Chain (some l) none (some n) a b c = unfold Chain in tt
cmp_idents-Chain (some l) none none a b c = (Chain-lt (cmp_bytes b c)).0
cmp_idents-Chain none (some m) (some n) a b c = (Chain-gt (cmp_int m n)).0
cmp_idents-Chain none (some m) none a b c = unfold Chain in tt
cmp_idents-Chain none none (some n) a b c = (Chain-gt (cmp_bytes a b)).1
cmp_idents-Chain none none none a b c = cmp_bytes-Chain a b c

compare_pre-flip : (a b : Bytes) → compare_pre b a ≡ flip (compare_pre a b)
unfolding compare_pre
compare_pre-flip a b = cmp_idents-flip (number_of (atoi a)) (number_of (atoi b)) a b

compare_pre-Chain : (a b c : Bytes) → Chain (compare_pre a b) (compare_pre b c) (compare_pre a c)
unfolding compare_pre
compare_pre-Chain a b c =
    cmp_idents-Chain (number_of (atoi a)) (number_of (atoi b)) (number_of (atoi c)) a b c

compare_all-flip : (ps qs : List Bytes) → compare_all qs ps ≡ flip (compare_all ps qs)
unfolding compare_all
compare_all-flip [] [] = unfold flip in refl
compare_all-flip [] (b ∷ qs) = unfold flip in refl
compare_all-flip (a ∷ ps) [] = unfold flip in refl
compare_all-flip (a ∷ ps) (b ∷ qs) =
    rw (compare_pre-flip a b, compare_all-flip ps qs)
      (sym (flip-and_then (compare_pre a b) (compare_all ps qs)))

compare_all-Chain :
    (ps qs rs : List Bytes) → Chain (compare_all ps qs) (compare_all qs rs) (compare_all ps rs)
unfolding compare_all
compare_all-Chain [] [] rs = unfold Chain in refl
compare_all-Chain [] (b ∷ qs) [] = unfold Chain in tt
compare_all-Chain [] (b ∷ qs) (c ∷ rs) =
    (Chain-lt (and_then (compare_pre b c) (compare_all qs rs))).0
compare_all-Chain (a ∷ ps) [] [] = unfold Chain in refl
compare_all-Chain (a ∷ ps) [] (c ∷ rs) = unfold Chain in tt
compare_all-Chain (a ∷ ps) (b ∷ qs) [] =
    (Chain-gt (and_then (compare_pre a b) (compare_all ps qs))).1
compare_all-Chain (a ∷ ps) (b ∷ qs) (c ∷ rs) =
    Chain-and_then (compare_pre a b) (compare_pre b c) (compare_pre a c) (compare_all ps qs)
      (compare_all qs rs) (compare_all ps rs) (compare_pre-Chain a b c) (compare_all-Chain ps qs rs)

eq_of_flip : (x : Ordering) → x ≡ flip x → x ≡ Ordering.eq
unfolding flip
eq_of_flip Ordering.lt h = cc
eq_of_flip Ordering.eq h = refl
eq_of_flip Ordering.gt h = cc

compare_all_refl : (ps : List Bytes) → compare_all ps ps ≡ Ordering.eq
compare_all_refl ps = eq_of_flip (compare_all ps ps) (compare_all-flip ps ps)

-- The test for equal texts only saves work.
compare_pres-all :
    (a b : ℕ) (p q : Bytes)
    → compare_pres (a ∷ p) (b ∷ q) ≡ compare_all (split_dots (a ∷ p)) (split_dots (b ∷ q))
unfolding compare_pres
compare_pres-all a b p q = elim (Bool-cases (bytes_eq (a ∷ p) (b ∷ q))) [
  | inl e ↦ rw e (
      subst (λ s. Ordering.eq ≡ compare_all (split_dots (a ∷ p)) (split_dots s))
        ((bytes_eq_iff (a ∷ p) (b ∷ q)).0 e) (sym (compare_all_refl (split_dots (a ∷ p)))))
  | inr e ↦ rw e refl
]

compare_pres-flip : (p q : Bytes) → compare_pres q p ≡ flip (compare_pres p q)
compare_pres-flip [] [] = unfold compare_pres flip in refl
compare_pres-flip [] (b ∷ q) = unfold compare_pres flip in refl
compare_pres-flip (a ∷ p) [] = unfold compare_pres flip in refl
compare_pres-flip (a ∷ p) (b ∷ q) =
    rw (compare_pres-all b a q p, compare_pres-all a b p q)
      (compare_all-flip (split_dots (a ∷ p)) (split_dots (b ∷ q)))

compare_pres-Chain :
    (p q r : Bytes) → Chain (compare_pres p q) (compare_pres q r) (compare_pres p r)
compare_pres-Chain [] [] r = unfold compare_pres Chain in refl
compare_pres-Chain [] (b ∷ q) [] = unfold compare_pres Chain in tt
compare_pres-Chain [] (b ∷ q) (c ∷ r) =
    unfold compare_pres in (Chain-gt (compare_pres (b ∷ q) (c ∷ r))).0
compare_pres-Chain (a ∷ p) [] [] = unfold compare_pres Chain in refl
compare_pres-Chain (a ∷ p) [] (c ∷ r) = unfold compare_pres Chain in tt
compare_pres-Chain (a ∷ p) (b ∷ q) [] =
    unfold compare_pres in (Chain-lt (compare_pres (a ∷ p) (b ∷ q))).1
compare_pres-Chain (a ∷ p) (b ∷ q) (c ∷ r) =
    rw (compare_pres-all a b p q, compare_pres-all b c q r, compare_pres-all a c p r)
      (compare_all-Chain (split_dots (a ∷ p)) (split_dots (b ∷ q)) (split_dots (c ∷ r)))

compare_versions-flip : (a b : Version) → compare_versions b a ≡ flip (compare_versions a b)
unfolding compare_versions
compare_versions-flip a b =
    rw
      (
        cmp_int-flip a.major b.major,
        cmp_int-flip a.minor b.minor,
        cmp_int-flip a.patch b.patch,
        compare_pres-flip a.pre b.pre,
        flip-and_then (cmp_int a.major b.major),
        flip-and_then (cmp_int a.minor b.minor),
        flip-and_then (cmp_int a.patch b.patch),
      )
      refl

compare_versions-Chain :
    (a b c : Version) → Chain (compare_versions a b) (compare_versions b c) (compare_versions a c)
unfolding compare_versions
compare_versions-Chain a b c = Chain-and_then _ _ _ _ _ _ (cmp_int-Chain a.major b.major c.major) (
    Chain-and_then _ _ _ _ _ _ (cmp_int-Chain a.minor b.minor c.minor) (
      Chain-and_then _ _ _ _ _ _ (cmp_int-Chain a.patch b.patch c.patch)
        (compare_pres-Chain a.pre b.pre c.pre)))

-- Compare gives the opposite answer the other way round, and its answers chain: older than older
-- is older, and versions that compare as equal compare alike with any other.
pub compare_versions-IsOrder : IsOrder compare_versions
compare_versions-IsOrder = record { flips = compare_versions-flip; chains = compare_versions-Chain }
