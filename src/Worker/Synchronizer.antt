-- ===== src/Worker/Synchronizer.antt =====
-- worker/src/synchronizer.rs: fetches the batches that the primary misses from the other workers.
pub mod Pending
pub mod Requests
use narwhal_td.Base.{
  ℕ, ◌+◌, ◌-◌, Bool, true, false, not, Option, none, some, List, [], ◌∷◌, ◌++◌, map, is_empty, ltb,
  ◌==◌, if◌then◌else◌,
}
use narwhal_td.Base.Map
use narwhal_td.Base.Map.{Map}
use narwhal_td.Base.Results.{Result, ok, err, panic}
use narwhal_td.Crypto.{PublicKey, Digest, to_vec}
use narwhal_td.Config
use narwhal_td.Config.{Committee, ConfigError, SocketAddr, WorkerId, WorkerAddresses}
use narwhal_td.Store.{Puts, Rocksdb, StoreResult, Value}
use narwhal_td.Primary.Header.{Round}
use narwhal_td.Primary.Platform.{PrimaryWorkerMessage, synchronize, cleanup}
use narwhal_td.Worker.Platform.{WorkerMessage, batch_request}

-- A future of `waiting`: the digest that it waits for and delivers, and its cancel channel.
pub record Wait : Type 0 where
  pub missing : Digest
  pub channel : ℕ

-- An entry of `pending`: the round, the cancel channel and the time of the request.
pub record Request : Type 0 where
  pub round : Round
  pub channel : ℕ
  pub timestamp : ℕ

-- What leaves the task: a request to one worker, or to so many picked at random.
pub data Effect : Type 0 where
  to_worker : SocketAddr → WorkerMessage → Effect
  to_some : List SocketAddr → WorkerMessage → ℕ → Effect

-- `Synchronizer` with the local variable `waiting`. `channels` counts the cancel channels made, `sent` is
-- what has left the task, oldest first. A time is a number of milliseconds.
pub record Synchronizer : Type 0 where
  pub name : PublicKey
  pub id : WorkerId
  pub committee : Committee
  pub gc_depth : Round
  pub sync_retry_delay : ℕ
  pub sync_retry_nodes : ℕ
  pub round : Round
  pub pending : Map Request
  pub waiting : List Wait
  pub channels : ℕ
  pub sent : List Effect

unfoldable pub spawn : PublicKey → WorkerId → Committee → Round → ℕ → ℕ → Synchronizer
spawn name id c gc_depth sync_retry_delay sync_retry_nodes = record {
  name = name;
  id = id;
  committee = c;
  gc_depth = gc_depth;
  sync_retry_delay = sync_retry_delay;
  sync_retry_nodes = sync_retry_nodes;
  round = 0;
  pending = [];
  waiting = [];
  channels = 0;
  sent = [];
}

unfoldable pub wait_for : ℕ → Digest → Synchronizer → Synchronizer
wait_for now digest s = record s {
  pending =
      Map.insert digest (record { round = s.round; channel = s.channels; timestamp = now })
        s.pending;
  waiting = s.waiting ++ record { missing = digest; channel = s.channels } ∷ [];
  channels = s.channels + 1;
}

-- One digest that the primary asks for, by what `pending` and the store hold of it: the state, and the
-- digests to request. One in the store is waited for too; one that cannot be read is skipped.
unfoldable pub request_one :
    ℕ
    → Digest
    → Option Request
    → StoreResult (Option Value)
    → Synchronizer
    → Synchronizer × List Digest
request_one now digest (some request) found s = (s, [])
request_one now digest none (ok none) s = (wait_for now digest s, digest ∷ [])
request_one now digest none (ok (some value)) s = (wait_for now digest s, [])
request_one now digest none (err e) s = (s, [])
request_one now digest none panic s = (s, [])

-- The loop over the digests.
unfoldable pub request_all :
    Rocksdb → Puts → ℕ → List Digest → Synchronizer → Synchronizer × List Digest
request_all r db now [] s = (s, [])
request_all r db now (digest ∷ digests) s =
    let (s', one) =
      request_one now digest (Map.lookup digest s.pending) (r.get db (to_vec digest)) s in
    let (s'', more) = request_all r db now digests s' in (s'', one ++ more)

unfoldable pub send_request :
    Result ConfigError WorkerAddresses → List Digest → Synchronizer → Synchronizer
send_request (ok address) missing s = record s {
  sent = s.sent ++ to_worker address.worker_to_worker (batch_request missing s.name) ∷ [];
}
send_request (err e) missing s = s
send_request panic missing s = s

unfoldable pub collect : Round → Synchronizer → Synchronizer
collect gc_round s = record s { pending = Map.retain_values (λ x. ltb gc_round x.round) s.pending }

-- The handler of the primary's messages.
unfoldable pub handle : Rocksdb → Puts → ℕ → PrimaryWorkerMessage → Synchronizer → Synchronizer
handle r db now (synchronize digests target) s =
    let (s', missing) = request_all r db now digests s in
    send_request (Config.worker s.committee target s.id) missing s'
handle r db now (cleanup round) s =
    let s' : Synchronizer = record s { round = round } in
    if ltb round s.gc_depth then s' else collect (round - s.gc_depth) s'

unfoldable pub overdue : ℕ → ℕ → Map Request → List Digest
overdue delay now [] = []
overdue delay now ((digest, request) ∷ rest) =
    if ltb (request.timestamp + delay) now
    then digest ∷ overdue delay now rest
    else overdue delay now rest

-- The handler of the timer.
unfoldable pub retry : ℕ → Synchronizer → Synchronizer
retry now s =
    let digests = overdue s.sync_retry_delay now s.pending in
    let addresses =
      map (λ x. x.1.worker_to_worker) (Config.others_workers s.committee s.name s.id) in
    if is_empty digests then s else record s {
      sent = s.sent ++ to_some addresses (batch_request digests s.name) s.sync_retry_nodes ∷ [];
    }

unfoldable pub without : ℕ → List Wait → List Wait
without channel [] = []
without channel (w ∷ ws) =
    let rest = without channel ws in if w.channel == channel then rest else w ∷ rest

-- How a future ends: the batch is stored, its channel is closed, or the store fails.
pub data Outcome : Type 0 where
  delivered : Digest → Outcome
  cancelled failed : Outcome

unfoldable pub finish : ℕ → Outcome → Synchronizer → Synchronizer
finish channel (delivered digest) s = record s {
  pending = Map.remove digest s.pending;
  waiting = without channel s.waiting;
}
finish channel cancelled s = record s { waiting = without channel s.waiting }
finish channel failed s = record s { waiting = without channel s.waiting }

-- What `select!` receives, with what the store holds and the time: a message of the primary, a future that
-- ends, or the timer.
pub data Event : Type 0 where
  from_primary : PrimaryWorkerMessage → Event
  finished : ℕ → Outcome → Event
  timer : Event

unfoldable pub step : Rocksdb → Puts → ℕ → Event → Synchronizer → Synchronizer
step r db now (from_primary message) s = handle r db now message s
step r db now (finished channel outcome) s = finish channel outcome s
step r db now timer s = retry now s
