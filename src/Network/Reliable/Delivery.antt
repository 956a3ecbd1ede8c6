-- ===== src/Network/Reliable/Delivery.antt =====
-- A connection of network/src/reliable_sender.rs that comes up and stays up.
use mathlib.Core.List.{append-nil, append_assoc}
use narwhal_td.Base.{
  ℕ, ◌-◌, ◌≤◌, ◌≡◌, sym, ap, ◌∙◌, true, false, some, List, [], ◌∷◌, ◌++◌, All, length, arith, ◌==◌,
}
use narwhal_td.Network.Reliable.{
  Bytes, Message, connecting, alive, Connection, is_open, flush, transmit, Event, connected,
  answered, answer, handle, step, run,
}

-- Replies over a stream that then takes so many more messages.
abbrev pub answers : List Bytes → List Event
answers [] = []
answers (b ∷ bs) = answered b 0 ∷ answers bs

abbrev pub zip : List Message → List Bytes → List (Message × Bytes)
zip [] bs = []
zip (m ∷ ms) [] = []
zip (m ∷ ms) (b ∷ bs) = (m, b) ∷ zip ms bs

flush-All :
    (closed : List ℕ) (n : ℕ) (buffer pending : List Message)
    → length buffer ≤ n
    → All (λ m. is_open closed m ≡ true) buffer
    → flush closed n buffer pending ≡ (true, [], pending ++ buffer)
unfolding flush
flush-All closed n [] pending h k =
    ap (λ (ms : List Message). (true, [], ms)) (sym (append-nil pending))
flush-All closed n (m ∷ buffer) pending h k =
    let room : (n == 0) ≡ false = ground (arith, h) in
    rw k.0 (
      rw room (
        flush-All closed (n - 1) buffer (pending ++ m ∷ []) (omega (arith, h)) k.1
        ∙ ap (λ (ms : List Message). (true, [], ms)) (append_assoc pending (m ∷ []) buffer)))

-- The connection in `keep_alive` with an empty buffer: these messages are in flight, these answered.
abbrev pub connected_with : List Message → List (Message × Bytes) → Connection → Connection
connected_with pending acknowledged s = record s {
  buffer = [];
  phase = alive pending;
  acknowledged = acknowledged;
}

answer-all :
    (pending : List Message) (replies : List Bytes) (acknowledged : List (Message × Bytes))
    (s : Connection)
    → length replies ≡ length pending
    → run (answers replies) (connected_with pending acknowledged s)
      ≡ some (connected_with [] (acknowledged ++ zip pending replies) s)
unfolding run step handle answer transmit flush
answer-all [] [] acknowledged s h =
    ap (λ (a : List (Message × Bytes)). some (connected_with [] a s))
      (sym (append-nil acknowledged))
answer-all (m ∷ pending) (b ∷ replies) acknowledged s h =
    answer-all pending replies (acknowledged ++ (m, b) ∷ []) s (omega (arith, h))
    ∙ ap (λ (a : List (Message × Bytes)). some (connected_with [] a s))
        (append_assoc acknowledged ((m, b) ∷ []) (zip pending replies))
answer-all [] (b ∷ replies) acknowledged s h = absurd (omega (arith, h))
answer-all (m ∷ pending) [] acknowledged s h = absurd (omega (arith, h))

-- When a connection attempt succeeds, the stream takes every message of the buffer, none of which is
-- cancelled, and the peer answers each, then each is answered, in the order of the buffer, and the
-- connection waits for more with nothing in flight and its delay and its retries as at the start.
pub run-delivers :
    (s : Connection) (accepts : ℕ) (replies : List Bytes)
    → s.phase ≡ connecting
    → All (λ m. is_open s.closed m ≡ true) s.buffer
    → length s.buffer ≤ accepts
    → length replies ≡ length s.buffer
    → run (connected accepts ∷ answers replies) s
      ≡ some (
          connected_with []
            (s.acknowledged ++ zip s.buffer replies)
            (record s { delay = s.retry_delay; retry = 0 }))
unfolding run step handle transmit
run-delivers s accepts replies phase live room enough =
    let sent = flush-All s.closed accepts s.buffer [] room live in
    rw phase (
      rw sent (
        answer-all s.buffer replies s.acknowledged (record s { delay = s.retry_delay; retry = 0 })
          enough))
