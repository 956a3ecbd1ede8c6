-- ===== src/Primary/Tasks/GarbageCollector.antt =====
-- primary/src/garbage_collector.rs: what consensus commits moves the round that other tasks read.
use narwhal_td.Base.{◌≤◌, ◌≡◌, List, [], ◌∷◌, ◌++◌, map, arith, ltb, if◌then◌else◌}
use narwhal_td.Base.Results.{Result, ok, err, panic}
use narwhal_td.Crypto.{PublicKey}
use narwhal_td.Config.{Committee, ConfigError, WorkerAddresses, SocketAddr, our_workers}
use narwhal_td.Primary.Header.{Round}
use narwhal_td.Primary.Certificate
use narwhal_td.Primary.Certificate.{Certificate}
use narwhal_td.Primary.Platform.{PrimaryWorkerMessage, cleanup}

-- `GarbageCollector` and the local variable of its loop; `sent` is what went to the workers.
pub record GarbageCollector : Type 0 where
  pub consensus_round : Round
  pub last_committed_round : Round
  pub addresses : List SocketAddr
  pub sent : List (SocketAddr × PrimaryWorkerMessage)

abbrev start : Result ConfigError (List WorkerAddresses) → Result ConfigError GarbageCollector
start (ok workers) = ok (record {
  consensus_round = 0;
  last_committed_round = 0;
  addresses = map (λ x. x.primary_to_worker) workers;
  sent = [];
})
start (err e) = panic
start panic = panic

-- `GarbageCollector::spawn`; it panics where our name is not in the committee.
unfoldable pub spawn : PublicKey → Committee → Result ConfigError GarbageCollector
spawn name c = start (our_workers c name)

-- The loop's body for one certificate that consensus has committed.
unfoldable pub receive : Certificate → GarbageCollector → GarbageCollector
receive certificate s =
    let round = Certificate.round certificate in
    if ltb s.last_committed_round round
    then record s {
      last_committed_round = round;
      consensus_round = round;
      sent = s.sent ++ map (λ address. (address, cleanup round)) s.addresses;
    }
    else s

unfoldable pub run : List Certificate → GarbageCollector → GarbageCollector
run [] s = s
run (x ∷ xs) s = run xs (receive x s)

abbrev pub highest : Round → List Certificate → Round
highest r [] = r
highest r (x ∷ xs) = highest (if ltb r (Certificate.round x) then Certificate.round x else r) xs

-- Where the collector's two rounds agree, the round that the other tasks read is, after a run, the
-- highest of itself and the rounds of the committed certificates received, and has not fallen.
pub run-highest :
    (xs : List Certificate) (s : GarbageCollector)
    → s.consensus_round ≡ s.last_committed_round
    → ((run xs s).consensus_round ≡ highest s.consensus_round xs)
      × (s.consensus_round ≤ (run xs s).consensus_round)
unfolding run receive
run-highest [] s e = ground arith
run-highest (x ∷ xs) s e = ground (arith, run-highest xs (receive x s))
