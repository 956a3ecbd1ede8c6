-- ===== src/Consensus/Order.antt =====
-- `order_leaders` and `order_dag` of consensus/src/lib.rs.
pub mod Visit
pub mod Output
pub mod Occurrences
pub mod Held
pub mod Once
pub mod Ascends
pub mod Leaders
pub mod Parity
pub mod Keyed
pub mod Reach
pub mod Complete
use narwhal_td.Base.{
  ℕ, zero, suc, ◌+◌, ◌-◌, Bool, true, false, ◌||◌, Option, none, some, List, [], ◌∷◌, ◌++◌, select,
  length, add64, sub64, leb, ◌==◌, if◌then◌else◌,
}
use narwhal_td.Base.Map
use narwhal_td.Base.Map.{Map}
use narwhal_td.Base.Set
use narwhal_td.Base.Options.{◌>>=◌}
use narwhal_td.Base.Sort.{sort_by_key}
use narwhal_td.Crypto.{Digest}
use narwhal_td.Config.{Committee}
use narwhal_td.Primary.Header.{Round}
use narwhal_td.Primary.Certificate
use narwhal_td.Primary.Certificate.{Certificate}
use narwhal_td.Consensus.State.{Authorities, Dag, State}
use narwhal_td.Consensus.Leader.{leader}
use narwhal_td.Consensus.Linked.{linked}

-- `(lo..lo + n).rev().step_by(2)`
unfoldable pub rounds : Round → ℕ → List Round
rounds lo zero = []
rounds lo (suc zero) = lo ∷ []
rounds lo (suc (suc n)) = (lo + n + 1) ∷ rounds lo n

-- The loop of `order_leaders` over the rounds: the current leader, and those to commit so far.
unfoldable pub past_leaders :
    Committee → Dag → List Round → Certificate → List Certificate → Option (List Certificate)
past_leaders c dag [] current to_commit = some to_commit
past_leaders c dag (r ∷ rs) current to_commit = do
  found ← leader c r dag
  elim found [
    | none ↦ past_leaders c dag rs current to_commit
    | some (digest, prev_leader) ↦ do
      reached ← linked current prev_leader dag
      elim reached [
        | true ↦ past_leaders c dag rs prev_leader (to_commit ++ prev_leader ∷ [])
        | false ↦ past_leaders c dag rs current to_commit
      ]
  ]

-- `order_leaders`: the leader, then the earlier leaders that it is linked to, latest first.
unfoldable pub order_leaders : Committee → Certificate → State → Option (List Certificate)
order_leaders c current s =
    let lo = add64 s.last_committed_round 2 in
    past_leaders c s.dag (rounds lo (Certificate.round current - lo)) current (current ∷ [])

-- `values().find(|(x, _)| x == parent)`
unfoldable pub find_digest : Digest → Authorities → Option Certificate
find_digest d [] = none
find_digest d ((name, (x, certificate)) ∷ rest) =
    if x == d then some certificate else find_digest d rest

abbrev pub same_round : Option Round → Round → Bool
same_round none round = false
same_round (some r) round = r == round

-- The stack of certificates to visit, and the digests put on it so far.
abbrev pub Visit : Type 0
Visit = List Certificate × List Digest

-- One parent of the certificate that is visited.
unfoldable pub push_parent : State → Digest → Option Certificate → Visit → Visit
push_parent s d none visit = visit
push_parent s d (some certificate) (buffer, already_ordered) =
    if Set.contains d already_ordered
      || same_round (Map.lookup (Certificate.origin certificate) s.last_committed)
          (Certificate.round certificate)
    then (buffer, already_ordered)
    else (certificate ∷ buffer, d ∷ already_ordered)

unfoldable pub push_parents : State → Authorities → List Digest → Visit → Visit
push_parents s authorities [] visit = visit
push_parents s authorities (d ∷ ds) visit =
    push_parents s authorities ds (push_parent s d (find_digest d authorities) visit)

-- The loop of `order_dag`: `none` when the fuel runs out.
unfoldable pub visit_dag : ℕ → State → Visit → Option (List Certificate)
visit_dag zero s visit = none
visit_dag (suc fuel) s ([], already_ordered) = some []
visit_dag (suc fuel) s (x ∷ buffer, already_ordered) =
    let authorities = Map.or_default [] (Map.lookup (sub64 (Certificate.round x) 1) s.dag) in
    let visit = push_parents s authorities x.header.parents (buffer, already_ordered) in
    do ordered ← visit_dag fuel s visit; some (x ∷ ordered)

-- The number of certificates in the DAG.
unfoldable pub count : Dag → ℕ
count [] = 0
count ((r, authorities) ∷ dag) = length authorities + count dag

-- `order_dag`; each certificate of the DAG is put on the stack at most once, which is the fuel.
unfoldable pub order_dag : Round → Certificate → State → Option (List Certificate)
order_dag gc_depth current s = do
  ordered ← visit_dag (count s.dag + 2) s (current ∷ [], [])
  some (
      sort_by_key Certificate.round
        (select (λ x. leb s.last_committed_round (add64 (Certificate.round x) gc_depth)) ordered))
