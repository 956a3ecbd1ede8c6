-- ===== src/Worker/BatchMaker.antt =====
-- worker/src/batch_maker.rs: assembles the clients' transactions into batches.
-- Without the feature `benchmark`, which cuts the transactions and logs.
pub mod Conservation
use narwhal_td.Base.{
  ℕ, ◌+◌, Bool, List, [], ◌∷◌, ◌++◌, map, length, is_empty, add64, leb, if◌then◌else◌,
}
use narwhal_td.Crypto.{PublicKey}
use narwhal_td.Config.{SocketAddr}
use narwhal_td.Worker.Platform.{Bytes, Batch}

-- What leaves the task: a message to each other worker with the batch, or with a decryptable batch,
-- and a sealed batch to the quorum waiter.
pub data Effect : Type 0 where
  broadcast_decryptable : List SocketAddr → Bytes → Effect
  broadcast_sealed : List SocketAddr → Batch → Effect
  to_quorum_waiter : Batch → List PublicKey → Effect

-- `BatchMaker`; `sent` is what has left the task, oldest first.
pub record BatchMaker : Type 0 where
  pub batch_size : ℕ
  pub max_batch_delay : ℕ
  pub workers_addresses : List (PublicKey × SocketAddr)
  pub current_batch : Batch
  pub current_batch_size : ℕ
  pub sent : List Effect

unfoldable pub spawn : ℕ → ℕ → List (PublicKey × SocketAddr) → BatchMaker
spawn batch_size max_batch_delay workers_addresses = record {
  batch_size = batch_size;
  max_batch_delay = max_batch_delay;
  workers_addresses = workers_addresses;
  current_batch = [];
  current_batch_size = 0;
  sent = [];
}

-- `seal`
unfoldable pub seal : BatchMaker → BatchMaker
seal s = record s {
  current_batch_size = 0;
  current_batch = [];
  sent =
      s.sent
      ++ broadcast_sealed (map (λ x. x.1) s.workers_addresses) s.current_batch
        ∷ to_quorum_waiter s.current_batch (map (λ x. x.0) s.workers_addresses)
        ∷ [];
}

-- What `select!` receives: a transaction, a decryptable batch of the quorum waiter, or the timer.
pub data Event : Type 0 where
  from_client from_quorum_waiter : Bytes → Event
  timer : Event

unfoldable pub push : Bytes → BatchMaker → BatchMaker
push transaction s = record s {
  current_batch_size = add64 s.current_batch_size (length transaction);
  current_batch = s.current_batch ++ transaction ∷ [];
}

unfoldable pub receive : Event → BatchMaker → BatchMaker
receive (from_client transaction) s =
    let s' = push transaction s in if leb s'.batch_size s'.current_batch_size then seal s' else s'
receive (from_quorum_waiter bytes) s = record s {
  sent = s.sent ++ broadcast_decryptable (map (λ x. x.1) s.workers_addresses) bytes ∷ [];
}
receive timer s = if is_empty s.current_batch then s else seal s

unfoldable pub run : List Event → BatchMaker → BatchMaker
run [] s = s
run (e ∷ events) s = run events (receive e s)
