-- ===== src/Consensus/Order/Keyed.antt =====
-- A DAG whose digests are all different: a digest stands for one certificate.
use mathlib.Core.Option.{some-injective}
use narwhal_td.Base.{
  ◌≡◌, sym, ap, ◌∙◌, true, false, some, List, [], ◌∷◌, ◌++◌, map, arith, ◌==◌, Bool-cases, inl, inr,
}
use narwhal_td.Base.Map
use narwhal_td.Base.Set
use narwhal_td.Base.Set.{Distinct}
use narwhal_td.Base.Members.{IsIn, IsIn-left, IsIn-right}
use narwhal_td.Crypto.{Digest}
use narwhal_td.Primary.Header.{Round}
use narwhal_td.Primary.Certificate.{Certificate}
use narwhal_td.Consensus.State.{Authorities, Dag, State}
use narwhal_td.Consensus.Order.{find_digest}
use narwhal_td.Consensus.Order.Held.{authorities}

-- The certificates of the DAG with their digests, round by round.
abbrev pub certificates : Dag → List (Digest × Certificate)
certificates [] = []
certificates ((r, m) ∷ dag) = map (λ x. x.1) m ++ certificates dag

-- No two certificates of the DAG have the same digest.
abbrev pub IsKeyed : State → Type 0
IsKeyed s = Distinct (map (λ x. x.0) (certificates s.dag))

find_digest-IsIn :
    (d : Digest) (m : Authorities) (c : Certificate)
    → find_digest d m ≡ some c
    → IsIn (d, c) (map (λ x. x.1) m)
unfolding find_digest
find_digest-IsIn d [] c e = cc
find_digest-IsIn d ((n, (x, y)) ∷ m) c e = elim (Bool-cases (x == d)) [
  | inl same ↦
      let same_digest : d ≡ x = ground (arith, same) in
      let same_certificate : c ≡ y = sym (some-injective _ _ (rw same at e)) in
      inl (ap (λ k. (k, c)) same_digest ∙ ap (λ z. (x, z)) same_certificate)
  | inr other ↦ inr (find_digest-IsIn d m c (rw other at e))
]

authorities-IsIn :
    (d : Digest) (q : Round) (dag : Dag) (c : Certificate)
    → find_digest d (Map.or_default [] (Map.lookup q dag)) ≡ some c
    → IsIn (d, c) (certificates dag)
unfolding Map.lookup find_digest
authorities-IsIn d q [] c e = cc
authorities-IsIn d q ((r, m) ∷ dag) c e = elim (Bool-cases (r == q)) [
  | inl here ↦
      IsIn-left (d, c) (map (λ x. x.1) m) (certificates dag) (find_digest-IsIn d m c (rw here at e))
  | inr later ↦
      IsIn-right (d, c) (map (λ x. x.1) m) (certificates dag)
        (authorities-IsIn d q dag c (rw later at e))
]

IsIn-contains :
    (d : Digest) (c : Certificate) (xs : List (Digest × Certificate))
    → IsIn (d, c) xs
    → Set.contains d (map (λ x. x.0) xs) ≡ true
unfolding Set.contains
IsIn-contains d c [] i = absurd i
IsIn-contains d c (x ∷ xs) (inl same) = let e : d ≡ x.0 = ap (λ y. y.0) same in ground (arith, e)
IsIn-contains d c (x ∷ xs) (inr later) = ground (arith, IsIn-contains d c xs later)

no_second :
    (d : Digest) (b c : Certificate) (x : Digest × Certificate) (xs : List (Digest × Certificate))
    → Set.contains x.0 (map (λ y. y.0) xs) ≡ false
    → (d, b) ≡ x
    → IsIn (d, c) xs
    → ⊥
no_second d b c x xs fresh i j =
    let again = IsIn-contains d c xs j in
    let same : d ≡ x.0 = ap (λ y. y.0) i in
    let no_ : true ≡ false =
      sym again ∙ (ap (λ y. Set.contains y (map (λ z. z.0) xs)) same ∙ fresh) in
    cc

Distinct-one :
    (d : Digest) (b c : Certificate) (xs : List (Digest × Certificate))
    → Distinct (map (λ x. x.0) xs)
    → IsIn (d, b) xs
    → IsIn (d, c) xs
    → b ≡ c
Distinct-one d b c [] k i j = absurd i
Distinct-one d b c (x ∷ xs) k (inl i) (inl j) = ap (λ y. y.1) (i ∙ sym j)
Distinct-one d b c (x ∷ xs) k (inl i) (inr j) = absurd (no_second d b c x xs k.0 i j)
Distinct-one d b c (x ∷ xs) k (inr i) (inl j) = absurd (no_second d c b x xs k.0 j i)
Distinct-one d b c (x ∷ xs) k (inr i) (inr j) = Distinct-one d b c xs k.1 i j

pub keyed-one :
    (s : State)
    → IsKeyed s
    → (d : Digest) (q r : Round) (b c : Certificate) → find_digest d (authorities s q) ≡ some b
    → find_digest d (authorities s r) ≡ some c
    → b ≡ c
keyed-one s keyed d q r b c e f =
    Distinct-one d b c (certificates s.dag) keyed (authorities-IsIn d q s.dag b e)
      (authorities-IsIn d r s.dag c f)
