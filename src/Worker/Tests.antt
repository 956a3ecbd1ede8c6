-- ===== src/Worker/Tests.antt =====
-- The theorems on the tasks of the worker, at concrete answers and transactions.
use narwhal_td.Base.{◌↔◌, All, ◌≡◌, true, Option, none, some, List, [], ◌∷◌, ◌++◌, map, arith}
use narwhal_td.Base.Set
use narwhal_td.Base.Set.{Distinct}
use narwhal_td.Crypto.{Digest, to_vec}
use narwhal_td.Store.{Puts}
use narwhal_td.Config.{Stake}
use narwhal_td.Worker.Synchronizer
use narwhal_td.Worker.Synchronizer.{Synchronizer, request_all}
use narwhal_td.Worker.Synchronizer.Requests.{request_all_exact}
use narwhal_td.Worker.Synchronizer.Pending.{is_pending, IsMissing}
use narwhal_td.Samples.{committee, rocksdb}
use narwhal_td.Worker.Platform.{NodeDecryptionShares}
use narwhal_td.Worker.BatchMaker.{
  BatchMaker, Event, from_client, from_quorum_waiter, timer, spawn, run,
}
use narwhal_td.Worker.BatchMaker.Conservation.{received, transactions, run-received}
use narwhal_td.Worker.QuorumWaiter.{panics, gather_shares}
use narwhal_td.Worker.QuorumWaiter.Gather.{gather_shares-failed}

abbrev one_answer : List (Stake × NodeDecryptionShares)
one_answer = (1, (2, [])) ∷ []

abbrev good_answer : Option (Stake × NodeDecryptionShares)
good_answer = some (1, (3, []))

gather_shares-failed_example :
    gather_shares 4 1
      ((1, []) ∷ [])
      0
      (map some one_answer ++ none ∷ good_answer ∷ good_answer ∷ [])
    ≡ panics
gather_shares-failed_example =
    gather_shares-failed 4 1 ((1, []) ∷ []) 0 one_answer (good_answer ∷ good_answer ∷ [])
      (omega arith) (omega arith)

abbrev maker : BatchMaker
maker = spawn 3 100 ((2, 32) ∷ (3, 33) ∷ [])

abbrev events : List Event
events =
    from_client (1 ∷ 2 ∷ [])
    ∷ from_client (3 ∷ 4 ∷ [])
    ∷ timer
    ∷ from_client (5 ∷ [])
    ∷ from_quorum_waiter []
    ∷ []

run-received_example : received (run events maker) ≡ received maker ++ transactions events
run-received_example = run-received events maker

abbrev syncing : Synchronizer
syncing = Synchronizer.spawn 1 0 committee 50 5_000 3

-- The primary asks twice for one batch, and for one that the store has.
abbrev stored : Puts
stored = (to_vec 8, 1 ∷ []) ∷ []

request_all_exact_example :
    Distinct (request_all rocksdb stored 100 (7 ∷ 8 ∷ 7 ∷ []) syncing).1
    × ((d : Digest)
        → (Set.contains d (request_all rocksdb stored 100 (7 ∷ 8 ∷ 7 ∷ []) syncing).1 ≡ true)
          ↔ ((Set.contains d (7 ∷ 8 ∷ 7 ∷ []) ≡ true) × IsMissing rocksdb stored syncing d))
    × All
        (λ d. is_pending d (request_all rocksdb stored 100 (7 ∷ 8 ∷ 7 ∷ []) syncing).0 ≡ true)
        (request_all rocksdb stored 100 (7 ∷ 8 ∷ 7 ∷ []) syncing).1
request_all_exact_example = request_all_exact rocksdb stored 100 (7 ∷ 8 ∷ 7 ∷ []) syncing
