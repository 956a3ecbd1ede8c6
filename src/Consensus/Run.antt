-- ===== src/Consensus/Run.antt =====
-- `run` of consensus/src/lib.rs: what the certificates from the primary commit.
pub mod Rule
pub mod Heads
pub mod Support
pub mod Filed
pub mod Commits
pub mod Once
mod Tests
use narwhal_td.Base.{
  ◌-◌, ◌%◌, not, ◌||◌, Option, none, some, List, [], ◌∷◌, ◌++◌, reverse, add32, sub64, leb, ltb,
  ◌==◌, if◌then◌else◌,
}
use narwhal_td.Base.Map
use narwhal_td.Base.Map.{Map}
use narwhal_td.Base.Set
use narwhal_td.Base.Options.{◌>>=◌}
use narwhal_td.Crypto.{Digest, Primitives}
use narwhal_td.Config.{Committee, Stake, stake, validity_threshold}
use narwhal_td.Primary.Header.{Round}
use narwhal_td.Primary.Certificate
use narwhal_td.Primary.Certificate.{Certificate}
use narwhal_td.Consensus.State.{Authorities, State, update}
use narwhal_td.Consensus.Leader.{leader}
use narwhal_td.Consensus.Order.{order_leaders, order_dag}

pub record Consensus : Type 0 where
  pub committee : Committee
  pub gc_depth : Round

unfoldable pub add_certificate : Primitives → Certificate → State → State
add_certificate p c s = record s {
  dag =
      Map.update (Certificate.round c) []
        (Map.insert (Certificate.origin c) (Certificate.digest p c, c)) s.dag;
}

-- The stake of the certificates of a round that have the digest among their parents.
unfoldable pub support : Committee → Digest → Authorities → Stake
support c digest [] = 0
support c digest ((name, (d, x)) ∷ rest) =
    let tail = support c digest rest in
    if Set.contains digest x.header.parents
    then add32 (stake c (Certificate.origin x)) tail
    else tail

-- The inner loop: update the state by each certificate of a leader's part of the DAG.
unfoldable pub update_all : Round → State → List Certificate → State
update_all gc_depth s [] = s
update_all gc_depth s (x ∷ xs) = update_all gc_depth (update s x gc_depth) xs

-- The outer loop over the leaders, oldest first: the state and the sequence of certificates.
unfoldable pub commit_leaders :
    Round → List Certificate → State → List Certificate → Option (State × List Certificate)
commit_leaders gc_depth [] s sequence = some (s, sequence)
commit_leaders gc_depth (l ∷ leaders) s sequence = do
  xs ← order_dag gc_depth l s
  commit_leaders gc_depth leaders (update_all gc_depth s xs) (sequence ++ xs)

unfoldable pub commit : Consensus → Certificate → State → Option (State × List Certificate)
commit k l s = do
  leaders ← order_leaders k.committee l s
  commit_leaders k.gc_depth (reverse leaders) s []

-- Commit the leader if its children of the round after it support it.
unfoldable pub try_commit :
    Consensus → Round → Digest × Certificate → State → Option (State × List Certificate)
try_commit k r (leader_digest, l) s = do
  children ← Map.lookup (r - 1) s.dag
  if ltb (support k.committee leader_digest children) (validity_threshold k.committee)
      then some (s, [])
      else commit k l s

unfoldable pub elect_leader : Consensus → Round → State → Option (State × List Certificate)
elect_leader k r s = do
  found ← leader k.committee (r - 2) s.dag
  elim found [ none ↦ some (s, []) | some l ↦ try_commit k r l s ]

-- The body of the loop: the state after it, and the certificates that are sent to the primary and
-- to the application, in this order. `none` is a panic, which ends the task.
unfoldable pub process :
    Primitives → Consensus → Certificate → State → Option (State × List Certificate)
process p k c s =
    let s' = add_certificate p c s in
    let r = sub64 (Certificate.round c) 1 in
    if not (r % 2 == 0) || ltb r 4
    then some (s', [])
    else if leb (r - 2) s'.last_committed_round
    then some (s', [])
    else elect_leader k r s'

-- The loop over the certificates from the primary: the state after it, and all that is sent.
unfoldable pub run :
    Primitives → Consensus → List Certificate → State → Option (State × List Certificate)
run p k [] s = some (s, [])
run p k (c ∷ cs) s = do (t, xs) ← process p k c s; (u, ys) ← run p k cs t; some (u, xs ++ ys)
