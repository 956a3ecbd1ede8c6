-- ===== src/Primary/HeaderWaiter.antt =====
-- primary/src/header_waiter.rs: holds headers back until their payload or their parents are stored.
pub mod Pool
pub mod Cleanup
mod Tests
use narwhal_td.Base.{
  ℕ, ◌+◌, ◌-◌, Bool, true, false, not, Option, none, some, List, [], ◌∷◌, ◌++◌, map, is_empty, ltb,
  ◌==◌, if◌then◌else◌,
}
use narwhal_td.Base.Map
use narwhal_td.Base.Map.{Map}
use narwhal_td.Base.Results.{Result, ok, err, panic}
use narwhal_td.Base.Options.{◌>>=◌}
use narwhal_td.Crypto.{PublicKey, Digest, to_vec}
use narwhal_td.Config
use narwhal_td.Config.{
  Committee, ConfigError, SocketAddr, WorkerId, WorkerAddresses, PrimaryAddresses,
}
use narwhal_td.Store.{Key}
use narwhal_td.Primary.Header.{Header, Round}
use narwhal_td.Primary.Platform.{
  PrimaryMessage, certificates_request, PrimaryWorkerMessage, synchronize, WaiterMessage,
  sync_batches, sync_parents,
}
use narwhal_td.Primary.Synchronizer.{payload_key}

-- A future of `waiting`: what it waits for, the header it delivers, and the number of its cancel channel.
pub record Wait : Type 0 where
  pub keys : List Key
  pub deliver : Header
  pub channel : ℕ

-- What leaves the task: a request to one of our workers, to a primary, to so many primaries picked at
-- random, and a header to the core.
pub data Effect : Type 0 where
  to_worker : SocketAddr → PrimaryWorkerMessage → Effect
  to_primary : SocketAddr → PrimaryMessage → Effect
  to_some : List SocketAddr → PrimaryMessage → ℕ → Effect
  to_core : Header → Effect

-- `HeaderWaiter` with the local variable `waiting`. `channels` counts the cancel channels made, `sent` is
-- what has left the task, oldest first. A time is a number of milliseconds.
pub record HeaderWaiter : Type 0 where
  pub name : PublicKey
  pub committee : Committee
  pub gc_depth : Round
  pub sync_retry_delay : ℕ
  pub sync_retry_nodes : ℕ
  pub parent_requests : Map (Round × ℕ)
  pub batch_requests : Map Round
  pub pending : Map (Round × ℕ)
  pub waiting : List Wait
  pub channels : ℕ
  pub sent : List Effect

unfoldable pub spawn : PublicKey → Committee → Round → ℕ → ℕ → HeaderWaiter
spawn name c gc_depth sync_retry_delay sync_retry_nodes = record {
  name = name;
  committee = c;
  gc_depth = gc_depth;
  sync_retry_delay = sync_retry_delay;
  sync_retry_nodes = sync_retry_nodes;
  parent_requests = [];
  batch_requests = [];
  pending = [];
  waiting = [];
  channels = 0;
  sent = [];
}

abbrev pub contains_key {ℓ} : {V : Type ℓ} → Option V → Bool
contains_key none = false
contains_key (some v) = true

-- A new future for the header, and its entry in `pending`.
unfoldable pub wait_for : List Key → Header → HeaderWaiter → HeaderWaiter
wait_for keys header s = record s {
  pending = Map.insert header.id (header.round, s.channels) s.pending;
  waiting = s.waiting ++ record { keys = keys; deliver = header; channel = s.channels } ∷ [];
  channels = s.channels + 1;
}

-- The loop over the missing batches: those with no request yet are noted, and gathered by worker.
unfoldable pub request_batches :
    Round → Map WorkerId → Map Round → Map (List Digest) → Map Round × Map (List Digest)
request_batches round [] requests requires_sync = (requests, requires_sync)
request_batches round ((digest, worker_id) ∷ missing) requests requires_sync =
    let known = contains_key (Map.lookup digest requests) in
    request_batches round missing (if known then requests else Map.insert digest round requests) (
      if known
      then requires_sync
      else Map.update worker_id [] (λ ds. ds ++ digest ∷ []) requires_sync)

abbrev to_our_worker : Result ConfigError WorkerAddresses → List Digest → PublicKey → Option Effect
to_our_worker (ok address) digests author =
    some (to_worker address.primary_to_worker (synchronize digests author))
to_our_worker (err e) digests author = none
to_our_worker panic digests author = none

-- The requests to the workers; an author or a worker that is not in the committee panics: `none`.
unfoldable pub batch_effects : Committee → PublicKey → Map (List Digest) → Option (List Effect)
batch_effects c author [] = some []
batch_effects c author ((worker_id, digests) ∷ rest) = do
  effect ← to_our_worker (Config.worker c author worker_id) digests author
  effects ← batch_effects c author rest
  some (effect ∷ effects)

unfoldable pub payload_keys : Map WorkerId → List Key
payload_keys [] = []
payload_keys ((digest, worker_id) ∷ rest) = payload_key digest worker_id ∷ payload_keys rest

unfoldable pub send_all : Option (List Effect) → HeaderWaiter → Option HeaderWaiter
send_all none s = none
send_all (some effects) s = some (record s { sent = s.sent ++ effects })

unfoldable pub start_batches : Map WorkerId → Header → HeaderWaiter → Option HeaderWaiter
start_batches missing header s =
    let s' = wait_for (payload_keys missing) header s in
    let (requests, requires_sync) = request_batches header.round missing s'.batch_requests [] in
    send_all (batch_effects s.committee header.author requires_sync)
      (record s' { batch_requests = requests })

-- The loop over the missing parents.
unfoldable pub request_parents :
    Round → ℕ → List Digest → Map (Round × ℕ) → List Digest → Map (Round × ℕ) × List Digest
request_parents round now [] requests requires_sync = (requests, requires_sync)
request_parents round now (d ∷ missing) requests requires_sync =
    let known = contains_key (Map.lookup d requests) in
    request_parents round now missing
      (if known then requests else Map.insert d (round, now) requests)
      (if known then requires_sync else requires_sync ++ d ∷ [])

abbrev to_author : Result ConfigError PrimaryAddresses → PrimaryMessage → Option (List Effect)
to_author (ok address) message = some (to_primary address.primary_to_primary message ∷ [])
to_author (err e) message = none
to_author panic message = none

unfoldable pub parent_effects :
    Committee → PublicKey → PublicKey → List Digest → Option (List Effect)
parent_effects c author name requires_sync =
    if is_empty requires_sync
    then some []
    else to_author (Config.primary c author) (certificates_request requires_sync name)

unfoldable pub start_parents : ℕ → List Digest → Header → HeaderWaiter → Option HeaderWaiter
start_parents now missing header s =
    let s' = wait_for (map to_vec missing) header s in
    let (requests, requires_sync) =
      request_parents header.round now missing s'.parent_requests [] in
    send_all (parent_effects s.committee header.author s.name requires_sync)
      (record s' { parent_requests = requests })

unfoldable pub start : ℕ → WaiterMessage → HeaderWaiter → Option HeaderWaiter
start now (sync_batches missing header) s = start_batches missing header s
start now (sync_parents missing header) s = start_parents now missing header s

abbrev pub header_of : WaiterMessage → Header
header_of (sync_batches missing header) = header
header_of (sync_parents missing header) = header

-- The handler of the timer.
unfoldable pub overdue : ℕ → ℕ → Map (Round × ℕ) → List Digest
overdue delay now [] = []
overdue delay now ((digest, (round, timestamp)) ∷ rest) =
    if ltb (timestamp + delay) now then digest ∷ overdue delay now rest else overdue delay now rest

unfoldable pub retry : ℕ → HeaderWaiter → HeaderWaiter
retry now s =
    let addresses =
      map (λ x. x.1.primary_to_primary) (Config.others_primaries s.committee s.name) in
    let message = certificates_request (overdue s.sync_retry_delay now s.parent_requests) s.name in
    record s { sent = s.sent ++ to_some addresses message s.sync_retry_nodes ∷ [] }

unfoldable pub remove_all {ℓ} : {V : Type ℓ} → List ℕ → Map V → Map V
remove_all [] m = m
remove_all (k ∷ ks) m = remove_all ks (Map.remove k m)

unfoldable pub without : ℕ → List Wait → List Wait
without channel [] = []
without channel (w ∷ ws) =
    let rest = without channel ws in if w.channel == channel then rest else w ∷ rest

-- How a future ends: with its header, by its cancel channel, or by an error of the store.
pub data Outcome : Type 0 where
  delivered : Header → Outcome
  cancelled failed : Outcome

-- The handler of a future that ends; an error of the store panics.
unfoldable pub finish : ℕ → Outcome → HeaderWaiter → Option HeaderWaiter
finish channel (delivered header) s = some (record s {
  pending = Map.remove header.id s.pending;
  batch_requests = remove_all (Map.keys header.payload) s.batch_requests;
  parent_requests = remove_all header.parents s.parent_requests;
  waiting = without channel s.waiting;
  sent = s.sent ++ to_core header ∷ [];
})
finish channel cancelled s = some (record s { waiting = without channel s.waiting })
finish channel failed s = none

-- The cleanup at the end of the loop's body, for the round of consensus that was read. The futures whose
-- entry in `pending` goes are cancelled.
unfoldable pub collect : Round → HeaderWaiter → HeaderWaiter
collect gc_round s = record s {
  pending = Map.retain_values (λ x. ltb gc_round x.0) s.pending;
  batch_requests = Map.retain_values (λ r. ltb gc_round r) s.batch_requests;
  parent_requests = Map.retain_values (λ x. ltb gc_round x.0) s.parent_requests;
}

unfoldable pub cleanup : Round → HeaderWaiter → HeaderWaiter
cleanup round s = if ltb s.gc_depth round then collect (round - s.gc_depth) s else s

-- What `select!` receives: a command, a future that ends, or the timer.
pub data Event : Type 0 where
  command : WaiterMessage → Event
  finished : ℕ → Outcome → Event
  timer : Event

abbrev clean : Round → Option HeaderWaiter → Option HeaderWaiter
clean round none = none
clean round (some s) = some (cleanup round s)

-- One round of the loop, at a time and for a round of consensus. A command for a header that is pending
-- goes on with the next round at once, with no cleanup. `none` is a panic.
unfoldable pub step : ℕ → Round → Event → HeaderWaiter → Option HeaderWaiter
step now round (command message) s =
    if contains_key (Map.lookup (header_of message).id s.pending)
    then some s
    else clean round (start now message s)
step now round (finished channel outcome) s = clean round (finish channel outcome s)
step now round timer s = clean round (some (retry now s))
