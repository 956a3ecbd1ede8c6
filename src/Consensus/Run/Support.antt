-- ===== src/Consensus/Run/Support.antt =====
-- The authorities behind the stake that `run` of consensus/src/lib.rs sums up for a leader.
use mathlib.Core.Option.{none-ne-some}
use narwhal_td.Base.{
  ◌≤◌, ◌≡◌, refl, sym, ap, ◌∙◌, true, false, some, List, [], ◌∷◌, All, All-weaken, arith, add32,
  ◌==◌, ==_iff, Bool-cases, inl, inr, if◌then◌else◌,
}
use narwhal_td.Base.Map
use narwhal_td.Base.Set
use narwhal_td.Base.Set.{Distinct}
use narwhal_td.Base.Members.{IsIn}
use narwhal_td.Crypto.{Digest, PublicKey}
use narwhal_td.Config.{Committee, stake}
use narwhal_td.Config.Quorum.{weight}
use narwhal_td.Primary.Certificate
use narwhal_td.Primary.Certificate.{Certificate}
use narwhal_td.Consensus.State.{Authorities}
use narwhal_td.Consensus.Run.{support}

-- The authority has a certificate in the map with the digest among its parents.
abbrev pub IsSupporter : Digest → Authorities → PublicKey → Type 0
IsSupporter digest m n =
    (d : Digest) × (x : Certificate) × (Map.lookup n m ≡ some (d, x)) × IsIn digest x.header.parents

contains-IsIn : (a : Digest) (xs : List Digest) → Set.contains a xs ≡ true → IsIn a xs
unfolding Set.contains
contains-IsIn a [] h = cc
contains-IsIn a (x ∷ xs) h = elim (Bool-cases (a == x)) [
  | inl same ↦ inl ((==_iff a x).0 same)
  | inr other ↦ inr (contains-IsIn a xs (rw other at h))
]

-- Each certificate of the map is under its origin.
abbrev pub AreOwn : Authorities → Type 0
AreOwn m =
    (n : PublicKey) (d : Digest) (x : Certificate)
    → Map.lookup n m ≡ some (d, x)
    → Certificate.origin x ≡ n

lookup-tail :
    (k n : PublicKey) (v w : Digest × Certificate) (m : Authorities)
    → Set.contains k (Map.keys m) ≡ false
    → Map.lookup n m ≡ some w
    → Map.lookup n ((k, v) ∷ m) ≡ some w
unfolding Map.lookup
lookup-tail k n v w m new e = elim (Bool-cases (k == n)) [
  | inl same ↦
      let gone = Map.lookup-absent k m new in
      let here = rw ((==_iff k n).0 same) at gone in absurd (none-ne-some w (sym here ∙ e))
  | inr other ↦ rw other e
]

lookup-head :
    (k : PublicKey) (v : Digest × Certificate) (m : Authorities)
    → Map.lookup k ((k, v) ∷ m) ≡ some v
unfolding Map.lookup
lookup-head k v m = ground arith

supporters : Digest → Authorities → List PublicKey
supporters digest [] = []
supporters digest ((n, (d, x)) ∷ m) =
    let tail = supporters digest m in
    if Set.contains digest x.header.parents then n ∷ tail else tail

supporters-new :
    (digest : Digest) (n : PublicKey) (m : Authorities)
    → Set.contains n (Map.keys m) ≡ false
    → Set.contains n (supporters digest m) ≡ false
unfolding supporters Set.contains
supporters-new digest n [] h = refl
supporters-new digest n ((k, (d, x)) ∷ m) h =
    elim (Bool-cases (Set.contains digest x.header.parents)) [
      | inl child ↦ rw child (ground (arith, supporters-new digest n m))
      | inr other ↦ rw other (ground (arith, supporters-new digest n m))
    ]

supporters-Distinct :
    (digest : Digest) (m : Authorities) → Distinct (Map.keys m) → Distinct (supporters digest m)
unfolding supporters
supporters-Distinct digest [] h = tt
supporters-Distinct digest ((k, (d, x)) ∷ m) h =
    elim (Bool-cases (Set.contains digest x.header.parents)) [
      | inl child ↦ rw child (supporters-new digest k m h.0, supporters-Distinct digest m h.1)
      | inr other ↦ rw other (supporters-Distinct digest m h.1)
    ]

supporters-IsSupporter :
    (digest : Digest) (m : Authorities)
    → Distinct (Map.keys m)
    → All (IsSupporter digest m) (supporters digest m)
unfolding supporters
supporters-IsSupporter digest [] h = tt
supporters-IsSupporter digest ((k, (d, x)) ∷ m) h =
    let rest =
      All-weaken (IsSupporter digest m) (IsSupporter digest ((k, (d, x)) ∷ m)) (supporters digest m)
        (λ n (e, y, held, child). (e, y, lookup-tail k n (d, x) (e, y) m h.0 held, child))
        (supporters-IsSupporter digest m h.1) in
    elim (Bool-cases (Set.contains digest x.header.parents)) [
      | inl child ↦
          rw child
            ((d, x, lookup-head k (d, x) m, contains-IsIn digest x.header.parents child), rest)
      | inr other ↦ rw other rest
    ]

support-le-weight :
    (c : Committee) (digest : Digest) (m : Authorities)
    → Distinct (Map.keys m)
    → AreOwn m
    → support c digest m ≤ weight c (supporters digest m)
unfolding supporters support weight add32
support-le-weight c digest [] h own = omega arith
support-le-weight c digest ((k, (d, x)) ∷ m) h own =
    let rest =
      support-le-weight c digest m h.1
        (λ n e y held. own n e y (lookup-tail k n (d, x) (e, y) m h.0 held)) in
    elim (Bool-cases (Set.contains digest x.header.parents)) [
      | inl child ↦
          rw child (omega (arith, rest, ap (stake c) (own k d x (lookup-head k (d, x) m))))
      | inr other ↦ rw other rest
    ]

-- Distinct authorities that support a digest weigh what `support` sums up, or more.
pub support_sound :
    (c : Committee) (digest : Digest) (m : Authorities)
    → Distinct (Map.keys m)
    → AreOwn m
    → (names : List PublicKey) × (Distinct names)
      × (All (IsSupporter digest m) names)
      × (support c digest m ≤ weight c names)
support_sound c digest m h own = (
  supporters digest m,
  supporters-Distinct digest m h,
  supporters-IsSupporter digest m h,
  support-le-weight c digest m h own,
)
