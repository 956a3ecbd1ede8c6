-- ===== src/Config/Quorum.antt =====
-- Sets of authorities, weighed by the stakes of config/src/lib.rs.
use narwhal_td.Base.{
  ℕ, ◌+◌, ◌≤◌, ◌≡◌, refl, false, List, [], ◌∷◌, arith, select, ◌==◌, ==_iff, Bool-cases, inl, inr,
  if◌then◌else◌,
}
use narwhal_td.Base.Map
use narwhal_td.Base.Map.{Map}
use narwhal_td.Base.Set
use narwhal_td.Base.Set.{Distinct}
use narwhal_td.Crypto.{PublicKey}
use narwhal_td.Config.{
  Committee, Authority, stake, stake_or_zero, quorum_threshold, validity_threshold,
}
use narwhal_td.Config.Thresholds.{
  total_of, total, FitsU32, quorum_threshold-eq, validity_threshold-eq,
}

-- The stakes of a list of names, one after the other.
unfoldable pub weight : Committee → List PublicKey → ℕ
weight c [] = 0
weight c (x ∷ xs) = stake c x + weight c xs

weight_in : Map Authority → List PublicKey → ℕ
weight_in m [] = 0
weight_in m (x ∷ xs) = stake_or_zero (Map.lookup x m) + weight_in m xs

weight-eq-weight_in :
    (c : Committee) (xs : List PublicKey) → weight c xs ≡ weight_in c.authorities xs
unfolding weight weight_in stake
weight-eq-weight_in c [] = refl
weight-eq-weight_in c (x ∷ xs) = omega (arith, weight-eq-weight_in c xs)

-- The same by authorities: the stake of each that is in the list.
share : Map Authority → List PublicKey → ℕ
share [] xs = 0
share ((k, a) ∷ m) xs = (if Set.contains k xs then a.stake else 0) + share m xs

weight_in-nil : (xs : List PublicKey) → weight_in [] xs ≡ 0
unfolding weight_in Map.lookup
weight_in-nil [] = refl
weight_in-nil (x ∷ xs) = omega (arith, weight_in-nil xs)

weight_in-cons :
    (k : ℕ) (a : Authority) (m : Map Authority) (xs : List PublicKey)
    → Set.contains k (Map.keys m) ≡ false
    → Distinct xs
    → weight_in ((k, a) ∷ m) xs ≡ (if Set.contains k xs then a.stake else 0) + weight_in m xs
unfolding weight_in Map.lookup Set.contains
weight_in-cons k a m [] h d = refl
weight_in-cons k a m (x ∷ xs) h d =
    ground (arith, weight_in-cons k a m xs h d.1, Map.lookup-absent k m h)

weight_in-eq-share :
    (m : Map Authority) (xs : List PublicKey)
    → Distinct (Map.keys m)
    → Distinct xs
    → weight_in m xs ≡ share m xs
unfolding share
weight_in-eq-share [] xs h d = weight_in-nil xs
weight_in-eq-share ((k, a) ∷ m) xs h d =
    omega (arith, weight_in-cons k a m xs h.0 d, weight_in-eq-share m xs h.1 d)

share-le-total : (m : Map Authority) (xs : List PublicKey) → share m xs ≤ total_of m
unfolding share total_of
share-le-total [] xs = omega arith
share-le-total ((k, a) ∷ m) xs = ground (arith, share-le-total m xs)

-- The names of both lists, in the order of the first.
abbrev pub common : List PublicKey → List PublicKey → List PublicKey
common xs ys = select (λ x. Set.contains x ys) xs

contains-common :
    (k : ℕ) (xs ys : List PublicKey)
    → Set.contains k (common xs ys) ≡ (if Set.contains k xs then Set.contains k ys else false)
unfolding Set.contains select
contains-common k [] ys = refl
contains-common k (x ∷ xs) ys = elim (Bool-cases (k == x)) [
  | inl e ↦ rw ((==_iff k x).0 e) (ground (arith, contains-common x xs ys))
  | inr e ↦ ground (arith, contains-common k xs ys)
]

common-Distinct : (xs ys : List PublicKey) → Distinct xs → Distinct (common xs ys)
unfolding select
common-Distinct [] ys d = tt
common-Distinct (x ∷ xs) ys d = ground (arith, common-Distinct xs ys d.1, contains-common x xs ys)

share_overlap :
    (m : Map Authority) (xs ys : List PublicKey)
    → share m xs + share m ys ≤ total_of m + share m (common xs ys)
unfolding share total_of
share_overlap [] xs ys = omega arith
share_overlap ((k, a) ∷ m) xs ys = ground (arith, share_overlap m xs ys, contains-common k xs ys)

module _ (c : Committee) (keyed : Distinct (Map.keys c.authorities)) where
  pub weight-le-total : (xs : List PublicKey) → Distinct xs → weight c xs ≤ total c
  weight-le-total xs d = omega (
    arith,
    weight-eq-weight_in c xs,
    weight_in-eq-share c.authorities xs keyed d,
    share-le-total c.authorities xs,
  )

  -- In a committee with distinct keys whose doubled total stake fits a `u32`, two sets of authorities
  -- that each weigh a quorum have members in common that weigh the validity threshold, f + 1.
  pub quorum_intersection :
      FitsU32 c
      → (xs ys : List PublicKey) → Distinct xs
      → Distinct ys
      → quorum_threshold c ≤ weight c xs
      → quorum_threshold c ≤ weight c ys
      → validity_threshold c ≤ weight c (common xs ys)
  quorum_intersection fits xs ys dx dy qx qy = omega (
    arith,
    quorum_threshold-eq c fits,
    validity_threshold-eq c fits,
    weight-eq-weight_in c xs,
    weight-eq-weight_in c ys,
    weight-eq-weight_in c (common xs ys),
    weight_in-eq-share c.authorities xs keyed dx,
    weight_in-eq-share c.authorities ys keyed dy,
    weight_in-eq-share c.authorities (common xs ys) keyed (common-Distinct xs ys dx),
    share_overlap c.authorities xs ys,
  )
