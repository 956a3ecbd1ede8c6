-- ===== src/Consensus/Run/Tests.antt =====
-- The theorems on whole runs of consensus, at a run that commits a leader of round 2 with its parents.
use narwhal_td.Base.{
  ℕ, ◌+◌, ◌-◌, ◌%◌, ◌^◌, ◌<◌, ◌≤◌, ◌≡◌, ◌↔◌, true, leb, refl, Option, none, some, List, [], ◌∷◌,
  arith, reverse, add32, add64, sub64, select, any, be_bytes, le_bytes, of_be_bytes,
}
use narwhal_td.Base.Map
use narwhal_td.Base.Set
use narwhal_td.Base.Sort
use narwhal_td.Crypto
use narwhal_td.Config
use narwhal_td.Config.{validity_threshold, stake}
use narwhal_td.Primary.Header
use narwhal_td.Primary.Certificate
use narwhal_td.Primary.Certificate.{Certificate}
use narwhal_td.Consensus.State.{State, new, update, clean, max_value, raise, retain_dag}
use narwhal_td.Consensus.State.Filed.{IsFiled}
use narwhal_td.Consensus.State.Genesis.{new-IsFiled}
use narwhal_td.Consensus.Leader
use narwhal_td.Consensus.Linked
use narwhal_td.Consensus.Order
use narwhal_td.Consensus.Order.{order_leaders, order_dag}
use narwhal_td.Consensus.Order.Occurrences.{occurrences}
use narwhal_td.Base.Members.{IsIn}
use narwhal_td.Consensus.Order.Keyed.{IsKeyed}
use narwhal_td.Consensus.Order.Reach.{Reaches}
use narwhal_td.Consensus.Order.Complete.{order_dag_iff}
use narwhal_td.Consensus.Order.Once.{order_dag-once}
use narwhal_td.Consensus.Order.Leaders.{Rises, order_leaders-Rises}
use narwhal_td.Consensus.Run
use narwhal_td.Consensus.Run.{Consensus, add_certificate, process, run}
use narwhal_td.Consensus.Run.Filed.{is_timely, add_certificate-IsFiled}
use narwhal_td.Consensus.Run.Rule.{IsSupported, run-IsSupported}
use narwhal_td.Consensus.Run.Once.{AreTimely, run-once}
use narwhal_td.Samples.{primitives, committee, certificate}

abbrev consensus : Consensus
consensus = record { committee = committee; gc_depth = 50 }

abbrev start : State
start = new primitives (Certificate.genesis committee)

-- The digest of a certificate is its origin here.
abbrev parent : ℕ → Certificate
parent n = certificate n 1 [] []

abbrev leader : Certificate
leader = certificate 3 2 (1 ∷ 2 ∷ []) []

abbrev delivered : List Certificate
delivered =
    parent 1
    ∷ parent 2
    ∷ leader
    ∷ certificate 1 3 (3 ∷ []) []
    ∷ certificate 2 3 (3 ∷ []) []
    ∷ certificate 4 5 [] []
    ∷ []

abbrev ran : Option (State × List Certificate)
ran = run primitives consensus delivered start

abbrev state_of : Option (State × List Certificate) → State
state_of none = start
state_of (some (s, xs)) = s

sent :
    run primitives consensus delivered start
    ≡ some (state_of ran, parent 2 ∷ parent 1 ∷ leader ∷ [])
unfolding order_dag Order.visit_dag Order.count Order.push_parents Order.push_parent
    Order.find_digest Map.lookup Map.insert Map.update add_certificate new Certificate.genesis
    Certificate.digest Crypto.finalize be_bytes le_bytes of_be_bytes select Set.contains
    Sort.insert_by Sort.sort_by_key add64 sub64 Header.digest Header.hashed_bytes run process
    Run.elect_leader Leader.leader Leader.elect Config.size Run.try_commit Run.support any
    Map.retain add32 stake Config.sum_stakes validity_threshold Linked.linked Linked.parents_in
    Linked.walk order_leaders Order.past_leaders Order.rounds Run.commit Run.commit_leaders
    Run.update_all clean max_value raise retain_dag update Certificate.eq
sent = refl

timely : AreTimely primitives consensus delivered start
unfolding AreTimely order_dag Order.visit_dag Order.count Order.push_parents Order.push_parent
    Order.find_digest Map.lookup Map.insert Map.update add_certificate new Certificate.genesis
    Certificate.digest Crypto.finalize be_bytes le_bytes of_be_bytes select Set.contains
    Sort.insert_by Sort.sort_by_key add64 sub64 Header.digest Header.hashed_bytes run process
    Run.elect_leader Leader.leader Leader.elect Config.size Run.try_commit Run.support any
    Map.retain add32 stake Config.sum_stakes validity_threshold Linked.linked Linked.parents_in
    Linked.walk order_leaders Order.past_leaders Order.rounds Run.commit Run.commit_leaders
    Run.update_all clean max_value raise retain_dag update Certificate.eq
timely = (refl, (refl, (refl, (refl, (refl, (refl, tt))))))

run-once_example : occurrences 1 2 (parent 2 ∷ parent 1 ∷ leader ∷ []) ≤ 1
run-once_example =
    run-once primitives consensus delivered (state_of ran) (parent 2 ∷ parent 1 ∷ leader ∷ []) 1 2
      timely sent

-- All but the last, which makes it commit.
abbrev delivered_before : List Certificate
delivered_before =
    parent 1 ∷ parent 2 ∷ leader ∷ certificate 1 3 (3 ∷ []) [] ∷ certificate 2 3 (3 ∷ []) [] ∷ []

abbrev last : Certificate
last = certificate 4 5 [] []

abbrev before : State
before = state_of (run primitives consensus delivered_before start)

abbrev after : State
after = state_of (process primitives consensus last before)

-- What the facts on the run unfold.
nothing_sent : run primitives consensus delivered_before start ≡ some (before, [])
unfolding order_dag Order.visit_dag Order.count Order.push_parents Order.push_parent
    Order.find_digest Map.lookup Map.insert Map.update add_certificate new Certificate.genesis
    Certificate.digest Crypto.finalize be_bytes le_bytes of_be_bytes select Set.contains
    Sort.insert_by Sort.sort_by_key add64 sub64 Header.digest Header.hashed_bytes run process
    Run.elect_leader Leader.leader Leader.elect Config.size Run.try_commit Run.support any
    Map.retain add32 stake Config.sum_stakes validity_threshold Linked.linked Linked.parents_in
    Linked.walk order_leaders Order.past_leaders Order.rounds Run.commit Run.commit_leaders
    Run.update_all clean max_value raise retain_dag update Certificate.eq
nothing_sent = refl

timely_before : AreTimely primitives consensus delivered_before start
unfolding AreTimely order_dag Order.visit_dag Order.count Order.push_parents Order.push_parent
    Order.find_digest Map.lookup Map.insert Map.update add_certificate new Certificate.genesis
    Certificate.digest Crypto.finalize be_bytes le_bytes of_be_bytes select Set.contains
    Sort.insert_by Sort.sort_by_key add64 sub64 Header.digest Header.hashed_bytes run process
    Run.elect_leader Leader.leader Leader.elect Config.size Run.try_commit Run.support any
    Map.retain add32 stake Config.sum_stakes validity_threshold Linked.linked Linked.parents_in
    Linked.walk order_leaders Order.past_leaders Order.rounds Run.commit Run.commit_leaders
    Run.update_all clean max_value raise retain_dag update Certificate.eq
timely_before = (refl, (refl, (refl, (refl, (refl, tt)))))

last_is_timely : is_timely before last ≡ true
unfolding order_dag Order.visit_dag Order.count Order.push_parents Order.push_parent
    Order.find_digest Map.lookup Map.insert Map.update add_certificate new Certificate.genesis
    Certificate.digest Crypto.finalize be_bytes le_bytes of_be_bytes select Set.contains
    Sort.insert_by Sort.sort_by_key add64 sub64 Header.digest Header.hashed_bytes run process
    Run.elect_leader Leader.leader Leader.elect Config.size Run.try_commit Run.support any
    Map.retain add32 stake Config.sum_stakes validity_threshold Linked.linked Linked.parents_in
    Linked.walk order_leaders Order.past_leaders Order.rounds Run.commit Run.commit_leaders
    Run.update_all clean max_value raise retain_dag update Certificate.eq
last_is_timely = refl

last_fits : sub64 (Certificate.round last) 1 + consensus.gc_depth < 2 ^ 64
unfolding sub64
last_fits = omega arith

committed :
    process primitives consensus last before ≡ some (after, parent 2 ∷ parent 1 ∷ leader ∷ [])
unfolding order_dag Order.visit_dag Order.count Order.push_parents Order.push_parent
    Order.find_digest Map.lookup Map.insert Map.update add_certificate new Certificate.genesis
    Certificate.digest Crypto.finalize be_bytes le_bytes of_be_bytes select Set.contains
    Sort.insert_by Sort.sort_by_key add64 sub64 Header.digest Header.hashed_bytes run process
    Run.elect_leader Leader.leader Leader.elect Config.size Run.try_commit Run.support any
    Map.retain add32 stake Config.sum_stakes validity_threshold Linked.linked Linked.parents_in
    Linked.walk order_leaders Order.past_leaders Order.rounds Run.commit Run.commit_leaders
    Run.update_all clean max_value raise retain_dag update Certificate.eq
committed = refl

run-IsSupported_example :
    let r = sub64 (Certificate.round last) 1 in
    (r % 2 ≡ 0)
    × (4 ≤ r)
    × (before.last_committed_round < r - 2)
    × IsSupported consensus r
        (add_certificate primitives last before).dag
        (parent 2 ∷ parent 1 ∷ leader ∷ [])
run-IsSupported_example =
    run-IsSupported primitives consensus delivered_before last before after [] (parent 2)
      (parent 1 ∷ leader ∷ []) timely_before nothing_sent last_is_timely last_fits committed

abbrev with_parents : State
with_parents = add_certificate primitives (parent 2) (add_certificate primitives (parent 1) start)

filed : IsFiled with_parents
unfolding Map.lookup add_certificate new Certificate.genesis Map.insert
filed =
    add_certificate-IsFiled primitives (parent 2) (add_certificate primitives (parent 1) start) refl
      (add_certificate-IsFiled primitives (parent 1) start refl (new-IsFiled primitives committee))

ordered : order_dag 50 leader with_parents ≡ some (parent 2 ∷ parent 1 ∷ leader ∷ [])
unfolding order_dag Order.visit_dag Order.count Order.push_parents Order.push_parent
    Order.find_digest Map.lookup Map.insert Map.update add_certificate new Certificate.genesis
    Certificate.digest Crypto.finalize be_bytes le_bytes of_be_bytes select Set.contains
    Sort.insert_by Sort.sort_by_key add64 sub64 Header.digest Header.hashed_bytes
ordered = refl

order_dag-once_example : occurrences 1 2 (parent 2 ∷ parent 1 ∷ leader ∷ []) ≤ 1
order_dag-once_example =
    order_dag-once with_parents filed 50 leader (parent 2 ∷ parent 1 ∷ leader ∷ []) 1 2 ordered

led : order_leaders committee leader with_parents ≡ some (leader ∷ [])
unfolding order_leaders Order.past_leaders Order.rounds add64 add_certificate new
led = refl

order_leaders-Rises_example : Rises (with_parents.last_committed_round + 1) (reverse (leader ∷ []))
unfolding add_certificate new
order_leaders-Rises_example =
    order_leaders-Rises with_parents committee leader (leader ∷ []) filed (omega arith)
      (omega arith) led

-- The DAG of the two parents only, for their digests to differ from all others.
abbrev bare : State
bare =
    add_certificate primitives (parent 2)
      (add_certificate primitives (parent 1) (new primitives []))

keyed : IsKeyed bare
unfolding add_certificate new Certificate.digest Crypto.finalize be_bytes le_bytes of_be_bytes
    Map.insert Map.update Map.lookup Set.contains
keyed = (refl, (refl, tt))

ordered_bare : order_dag 50 leader bare ≡ some (parent 2 ∷ parent 1 ∷ leader ∷ [])
unfolding order_dag Order.visit_dag Order.count Order.push_parents Order.push_parent
    Order.find_digest Map.lookup Map.insert Map.update add_certificate new Certificate.digest
    Crypto.finalize be_bytes le_bytes of_be_bytes select Set.contains Sort.insert_by
    Sort.sort_by_key add64 sub64 Header.digest Header.hashed_bytes
ordered_bare = refl

order_dag_iff_example : IsIn (parent 1) (parent 2 ∷ parent 1 ∷ leader ∷ []) ↔ (
    Reaches bare leader (parent 1)
    × (leb bare.last_committed_round (add64 (Certificate.round (parent 1)) 50) ≡ true))
order_dag_iff_example =
    order_dag_iff 50 leader bare (parent 2 ∷ parent 1 ∷ leader ∷ []) (parent 1) keyed ordered_bare
