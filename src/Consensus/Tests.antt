-- ===== src/Consensus/Tests.antt =====
-- The theorems on consensus, at small DAGs of a committee of four.
use mathlib.Core.Option
use narwhal_td.Base.{
  ℕ, ◌+◌, ◌-◌, ◌≡◌, ◌↔◌, refl, true, ◌&&◌, none, some, List, [], ◌∷◌, arith, All, leb, add64,
  if◌then◌else◌, ◌==◌, sub64, select, any, be_bytes, le_bytes, of_be_bytes,
}
use narwhal_td.Base.Map
use narwhal_td.Base.Set
use narwhal_td.Base.Sort
use narwhal_td.Crypto
use narwhal_td.Config
use narwhal_td.Config.{validity_threshold, stake}
use narwhal_td.Primary.Header
use narwhal_td.Consensus.Leader
use narwhal_td.Consensus.Linked
use narwhal_td.Consensus.Order
use narwhal_td.Base.Sort.{IsSortedBy}
use narwhal_td.Primary.Certificate
use narwhal_td.Primary.Certificate.{Certificate}
use narwhal_td.Consensus.State.{Dag, State, max, max_value, update}
use narwhal_td.Consensus.State.Clean.{IsWell, entry, is_recent, update-entry}
use narwhal_td.Consensus.State.Rounds.{update-rounds}
use narwhal_td.Consensus.Linked.{linked}
use narwhal_td.Consensus.Linked.Chain.{Chain, linked_iff}
use narwhal_td.Consensus.Order.{order_leaders, order_dag}
use narwhal_td.Consensus.Order.Visit.{order_dag-total}
use narwhal_td.Consensus.Order.Output.{IsRecent, IsFresh, order_dag-sorted}
use narwhal_td.Consensus.Order.Parity.{IsPast, order_leaders-odd}
use narwhal_td.Samples.{committee, certificate}

-- Authority 1 in round 2, with parents of authorities 1 and 2 in round 1.
abbrev leader : Certificate
leader = certificate 1 2 (11 ∷ 12 ∷ []) []

abbrev parent : ℕ → Certificate
parent n = certificate n 1 [] []

abbrev dag : Dag
dag =
    (1, (1, (11, parent 1)) ∷ (2, (12, parent 2)) ∷ (3, (13, parent 3)) ∷ [])
    ∷ (2, (1, (21, leader)) ∷ [])
    ∷ []

abbrev state : State
state = record {
  last_committed_round = 0;
  last_committed = (1, 0) ∷ (2, 0) ∷ (3, 0) ∷ (4, 0) ∷ [];
  dag = dag;
}

well : IsWell state
unfolding Set.contains max_value
well = record {
  dag_keys = (refl, (refl, tt));
  names = (refl, (refl, (refl, (refl, tt))));
  highest = refl;
}

update-entry_example :
    let s' = update state leader 50 in
    entry 1 2 s'.dag ≡ (
      if is_recent (Map.lookup 2 s'.last_committed) 1 && leb s'.last_committed_round (add64 1 50)
      then entry 1 2 state.dag
      else none)
update-entry_example = update-entry state leader 50 1 2 well

update-rounds_example :
    let s' = update state leader 50 in
    (s'.last_committed_round ≡ max state.last_committed_round (Certificate.round leader))
    × (Map.lookup 1 s'.last_committed ≡ (
        if Certificate.origin leader == 1
        then some (
            Map.or_default (Certificate.round leader) (
              Option.map
                (λ r. max r (Certificate.round leader))
                (Map.lookup 1 state.last_committed)))
        else Map.lookup 1 state.last_committed))
update-rounds_example = update-rounds state leader 50 1 well

linked_iff_example :
    (linked leader (parent 1) dag ≡ some true)
    ↔ Chain dag
        (parent 1)
        (Certificate.round (parent 1))
        (Certificate.round leader - Certificate.round (parent 1))
        leader
linked_iff_example = linked_iff leader (parent 1) dag

order_dag-total_example : (xs : List Certificate) × (order_dag 50 leader state ≡ some xs)
order_dag-total_example = order_dag-total 50 leader state

abbrev ordered : List Certificate
ordered = parent 2 ∷ parent 1 ∷ leader ∷ []

order_dag-sorted_example :
    IsSortedBy Certificate.round ordered
    × All (λ x. IsRecent 50 state x × IsFresh state leader x) ordered
unfolding order_dag Order.visit_dag Order.count Order.push_parents Order.push_parent
    Order.find_digest Map.lookup sub64 Set.contains Sort.sort_by_key select add64 Sort.insert_by
order_dag-sorted_example = order_dag-sorted 50 leader state ordered refl

-- A leader in round 6, linked to a certificate in round 5 only.
abbrev late : Certificate
late = certificate 1 6 (15 ∷ []) []

abbrev past : Certificate
past = certificate 2 5 [] []

abbrev late_state : State
late_state = record state { dag = (5, (2, (15, past)) ∷ []) ∷ (6, (1, (16, late)) ∷ []) ∷ [] }

order_leaders-odd_example :
    All
      (IsPast committee late_state.dag
        (late_state.last_committed_round + 2)
        (Certificate.round late)
        late)
      (late ∷ past ∷ [])
unfolding order_leaders Order.past_leaders Order.rounds add64 Leader.leader Leader.elect
    Sort.sort_by_key Sort.insert_by Config.size Map.lookup linked Linked.walk any Linked.parents_in
    Set.contains Certificate.eq Header.digest Crypto.finalize be_bytes le_bytes of_be_bytes
    Header.hashed_bytes
order_leaders-odd_example =
    order_leaders-odd committee late_state late (late ∷ past ∷ []) refl (omega arith) (omega arith)
      refl
