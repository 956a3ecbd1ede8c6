-- ===== src/Consensus/Order/Parity.antt =====
-- The rounds that `order_leaders` looks for earlier leaders in.
use mathlib.Core.Option.{some-injective}
use narwhal_td.Base.{
  ℕ, zero, suc, ◌+◌, ◌-◌, ◌%◌, ◌^◌, ◌≤◌, ◌<◌, ◌≡◌, refl, List, [], ◌∷◌, arith, All, All-weaken,
  All-append, add64-eq-add, some, ◌⊎◌, inl, inr, ◌++◌, Bool-cases, Option-cases,
}
use narwhal_td.Primary.Header.{Round}
use narwhal_td.Primary.Certificate
use narwhal_td.Primary.Certificate.{Certificate}
use narwhal_td.Consensus.State.{State}
use narwhal_td.Base.Options.{>>=-eq-some}
use narwhal_td.Crypto.{Digest}
use narwhal_td.Config.{Committee}
use narwhal_td.Consensus.State.{Dag}
use narwhal_td.Consensus.Leader.{leader}
use narwhal_td.Consensus.Linked.{linked}
use narwhal_td.Consensus.Order.{rounds, past_leaders, order_leaders}

rounds-odd :
    (lo n : ℕ) → (lo + n) % 2 ≡ 0 → All (λ r. (r % 2 ≡ 1) × (lo ≤ r) × (r < lo + n)) (rounds lo n)
unfolding rounds
rounds-odd lo zero h = tt
rounds-odd lo (suc zero) h = ((omega (arith, h), omega arith, omega arith), tt)
rounds-odd lo (suc (suc n)) h = (
  (omega (arith, h), omega arith, omega arith),
  All-weaken (λ r. (r % 2 ≡ 1) × (lo ≤ r) × (r < lo + n)) _ (rounds lo n)
      (λ r q. (q.0, q.1, omega (arith, q.2))) (rounds-odd lo n (omega (arith, h))),
)

abbrev pub IsOdd : Round → Round → Round → Type 0
IsOdd lo hi r = (r % 2 ≡ 1) × (lo ≤ r) × (r < hi)

-- The first leader, or the certificate of the leader of an odd round between the bounds.
abbrev pub IsPast : Committee → Dag → Round → Round → Certificate → Certificate → Type 0
IsPast c dag lo hi l x =
    (x ≡ l) ⊎ ((r : Round) × (d : Digest) × IsOdd lo hi r × (leader c r dag ≡ some (some (d, x))))

past_leaders-IsPast :
    (c : Committee) (dag : Dag) (lo hi : Round) (l : Certificate) (rs : List Round)
    (current : Certificate) (to_commit xs : List Certificate)
    → All (IsOdd lo hi) rs
    → All (IsPast c dag lo hi l) to_commit
    → past_leaders c dag rs current to_commit ≡ some xs
    → All (IsPast c dag lo hi l) xs
unfolding past_leaders
past_leaders-IsPast c dag lo hi l [] current to_commit xs odd past e =
    rw (← some-injective _ _ e) past
past_leaders-IsPast c dag lo hi l (r ∷ rs) current to_commit xs odd past e =
    let (found, elected, rest) = >>=-eq-some (leader c r dag) _ e in
    elim (Option-cases found) [
      | inl missing ↦
          past_leaders-IsPast c dag lo hi l rs current to_commit xs odd.1 past (rw missing at rest)
      | inr ((d, previous), held) ↦
          let (reached, path, next) =
            >>=-eq-some (linked current previous dag) _ (rw held at rest) in
          elim (Bool-cases reached) [
            | inl is_linked ↦
                let found_odd = inr (r, d, odd.0, rw held at elected) in
                past_leaders-IsPast c dag lo hi l rs previous (to_commit ++ previous ∷ []) xs odd.1
                  (All-append (IsPast c dag lo hi l) to_commit (previous ∷ []) past (found_odd, tt))
                  (rw is_linked at next)
            | inr not_linked ↦
                past_leaders-IsPast c dag lo hi l rs current to_commit xs odd.1 past
                  (rw not_linked at next)
          ]
    ]

-- When the leader's round is even and at least two above the last committed round, and that round
-- plus two fits 64 bits, each other certificate that `order_leaders` returns is the certificate of
-- the leader of an odd round, from the last committed round plus two on and before the leader's.
pub order_leaders-odd :
    (c : Committee) (s : State) (l : Certificate) (xs : List Certificate)
    → Certificate.round l % 2 ≡ 0
    → s.last_committed_round + 2 < 2 ^ 64
    → s.last_committed_round + 2 ≤ Certificate.round l
    → order_leaders c l s ≡ some xs
    → All (IsPast c s.dag (s.last_committed_round + 2) (Certificate.round l) l) xs
unfolding order_leaders
order_leaders-odd c s l xs even fits later e =
    let lo = s.last_committed_round + 2 in
    let n = Certificate.round l - lo in
    let odd =
      All-weaken _ (IsOdd lo (Certificate.round l)) (rounds lo n)
        (λ r q. (q.0, q.1, omega (arith, q.2, later)))
        (rounds-odd lo n (omega (arith, even, later))) in
    past_leaders-IsPast c s.dag lo (Certificate.round l) l (rounds lo n) l (l ∷ []) xs odd
      (inl refl, tt) (rw (add64-eq-add s.last_committed_round 2 fits) at e)
