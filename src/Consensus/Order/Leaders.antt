-- ===== src/Consensus/Order/Leaders.antt =====
-- The rounds of the leaders that `order_leaders` returns for a filed DAG.
use mathlib.Core.Option.{some-injective, none-ne-some}
use mathlib.Core.List.{reverse-append}
use narwhal_td.Base.{
  ℕ, zero, suc, ◌+◌, ◌-◌, ◌^◌, ◌≤◌, ◌<◌, ◌≡◌, Option, none, some, List, [], ◌∷◌, ◌++◌, arith,
  add64-eq-add, reverse, Bool-cases, Option-cases, inl, inr,
}
use narwhal_td.Base.Map
use narwhal_td.Base.Options.{>>=-eq-some}
use narwhal_td.Crypto.{Digest, PublicKey}
use narwhal_td.Config.{Committee}
use narwhal_td.Primary.Header.{Round}
use narwhal_td.Primary.Certificate
use narwhal_td.Primary.Certificate.{Certificate}
use narwhal_td.Consensus.State.{Authorities, State}
use narwhal_td.Consensus.State.Filed.{IsFiled}
use narwhal_td.Consensus.Leader.{elect, get_leader, leader}
use narwhal_td.Consensus.Linked.{linked}
use narwhal_td.Consensus.Order.{rounds, past_leaders, order_leaders}

-- The rounds fall, from below one bound down to the other.
Falls : Round → Round → List Round → Type 0
Falls lo b [] = Unit {0}
Falls lo b (r ∷ rs) = (lo ≤ r) × (r < b) × Falls lo r rs

-- The rounds of the certificates rise, from the bound on.
unfoldable pub Rises : Round → List Certificate → Type 0
Rises b [] = Unit {0}
Rises b (x ∷ xs) = (b ≤ Certificate.round x) × Rises (Certificate.round x + 1) xs

rounds-Falls : (lo n b a : ℕ) → a ≤ lo → n ≤ b - lo → Falls a b (rounds lo n)
unfolding rounds Falls
rounds-Falls lo zero b a k h = tt
rounds-Falls lo (suc zero) b a k h = (k, omega (arith, h), tt)
rounds-Falls lo (suc (suc n)) b a k h =
    (omega (arith, k), omega (arith, h), rounds-Falls lo n (lo + n + 1) a k (omega arith))

pub Rises-weaken : (a b : Round) (xs : List Certificate) → a ≤ b → Rises b xs → Rises a xs
unfolding Rises
Rises-weaken a b [] h k = tt
Rises-weaken a b (x ∷ xs) h k = (omega (arith, h, k.0), k.1)

pub get_leader-entry :
    (name : PublicKey) (o : Option Authorities) (x : Digest × Certificate)
    → get_leader name o ≡ some x
    → Map.lookup name (Map.or_default [] o) ≡ some x
get_leader-entry name none x e = absurd (none-ne-some _ e)
get_leader-entry name (some m) x e = e

-- The leader of a round that is in a filed DAG is of this round.
pub leader-round :
    (s : State) (c : Committee) (r : Round) (d : Digest) (x : Certificate)
    → IsFiled s
    → leader c r s.dag ≡ some (some (d, x))
    → Certificate.round x ≡ r
unfolding leader
leader-round s c r d x f e =
    let (name, elected, held) = >>=-eq-some (elect c r) _ e in
    (f.filed r name d x
      (get_leader-entry name (Map.lookup r s.dag) (d, x) (some-injective _ _ held))).0

snoc-Rises :
    (x : Certificate) (r b : Round) (xs : List Certificate)
    → Certificate.round x ≡ r
    → r < b
    → Rises b xs
    → Rises r (x ∷ xs)
unfolding Rises
snoc-Rises x r b xs same below rises =
    (omega (arith, same), Rises-weaken _ b xs (omega (arith, same, below)) rises)

past_leaders-Rises :
    (s : State) (c : Committee) (a b : Round) (rs : List Round) (current : Certificate)
    (to_commit xs : List Certificate)
    → IsFiled s
    → a ≤ b
    → Falls a b rs
    → Rises b (reverse to_commit)
    → past_leaders c s.dag rs current to_commit ≡ some xs
    → Rises a (reverse xs)
unfolding past_leaders Falls
past_leaders-Rises s c a b [] current to_commit xs f le falls rises e =
    rw (← some-injective _ _ e) (Rises-weaken a b (reverse to_commit) le rises)
past_leaders-Rises s c a b (r ∷ rs) current to_commit xs f le falls rises e =
    let (found, elected, rest) = >>=-eq-some (leader c r s.dag) _ e in
    let (above, below, next_falls) = falls in
    let lower = Rises-weaken r b (reverse to_commit) (omega (arith, below)) rises in
    elim (Option-cases found) [
      | inl missing ↦
          past_leaders-Rises s c a r rs current to_commit xs f above next_falls lower
            (rw missing at rest)
      | inr ((d, previous), held) ↦
          let (reached, path, next) =
            >>=-eq-some (linked current previous s.dag) _ (rw held at rest) in
          elim (Bool-cases reached) [
            | inl is_linked ↦
                let same = leader-round s c r d previous f (rw held at elected) in
                past_leaders-Rises s c a r rs previous (to_commit ++ previous ∷ []) xs f above
                  next_falls
                  (rw (reverse-append to_commit (previous ∷ []))
                    (snoc-Rises previous r b (reverse to_commit) same below rises))
                  (rw is_linked at next)
            | inr not_linked ↦
                past_leaders-Rises s c a r rs current to_commit xs f above next_falls lower
                  (rw not_linked at next)
          ]
    ]

-- In a filed state, whose last committed round is before the leader's and, plus two, fits 64 bits: the
-- leaders to commit, oldest first, have rising rounds after the last committed one.
pub order_leaders-Rises :
    (s : State) (c : Committee) (l : Certificate) (xs : List Certificate)
    → IsFiled s
    → s.last_committed_round + 2 < 2 ^ 64
    → s.last_committed_round < Certificate.round l
    → order_leaders c l s ≡ some xs
    → Rises (s.last_committed_round + 1) (reverse xs)
unfolding order_leaders Rises
order_leaders-Rises s c l xs f fits later e =
    let lo = s.last_committed_round + 2 in
    let n = Certificate.round l - lo in
    let falls =
      rounds-Falls lo n (Certificate.round l) (s.last_committed_round + 1) (omega arith)
        (omega arith) in
    past_leaders-Rises s c (s.last_committed_round + 1) (Certificate.round l) (rounds lo n) l
      (l ∷ []) xs f (omega (arith, later)) falls (omega arith, tt)
      (rw (add64-eq-add s.last_committed_round 2 fits) at e)
