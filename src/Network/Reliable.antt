-- ===== src/Network/Reliable.antt =====
-- network/src/reliable_sender.rs: a connection that transmits each message until its peer answers.
-- A message is known by the number of its cancel handler; the caller cancels by dropping its end.
pub mod Live
pub mod Order
pub mod Delivery
use narwhal_td.Base.{
  ℕ, ◌+◌, ◌-◌, ◌*◌, ◌%◌, ◌^◌, Bool, true, false, not, Option, none, some, List, [], ◌∷◌, ◌++◌,
  select, ltb, ◌==◌, if◌then◌else◌,
}
use narwhal_td.Base.Set
use narwhal_td.Base.Map
use narwhal_td.Base.Map.{Map}
use narwhal_td.Base.Options.{◌>>=◌}
use narwhal_td.Config.{SocketAddr}

abbrev pub Bytes : Type 0
Bytes = List ℕ

-- `InnerMessage`
pub record Message : Type 0 where
  pub content : Bytes
  pub cancel_handler : ℕ

-- Where the loop of `run` stands: before a connection, in the wait before the next attempt, or in
-- `keep_alive` with its `pending_replies`.
pub data Phase : Type 0 where
  connecting waiting : Phase
  alive : List Message → Phase

-- `Connection` with the local variables of `run`. `closed` holds the handlers whose
-- caller has gone; `acknowledged` the messages answered, with the answers, oldest first.
pub record Connection : Type 0 where
  pub address : SocketAddr
  pub retry_delay : ℕ
  pub buffer : List Message
  pub phase : Phase
  pub delay : ℕ
  pub retry : ℕ
  pub closed : List ℕ
  pub acknowledged : List (Message × Bytes)

unfoldable pub spawn : SocketAddr → Connection
spawn address = record {
  address = address;
  retry_delay = 200;
  buffer = [];
  phase = connecting;
  delay = 200;
  retry = 0;
  closed = [];
  acknowledged = [];
}

abbrev pub is_open : List ℕ → Message → Bool
is_open closed m = not (Set.contains m.cancel_handler closed)

-- The loop that sends the buffer, over a stream that takes `accepts` more messages and then fails:
-- whether it ran to its end, the buffer left, and the messages that wait for an answer.
unfoldable pub flush : List ℕ → ℕ → List Message → List Message → Bool × List Message × List Message
flush closed accepts [] pending = (true, [], pending)
flush closed accepts (m ∷ buffer) pending =
    let sent = is_open closed m in
    let rest =
      flush closed (if sent then accepts - 1 else accepts) buffer
        (if sent then pending ++ m ∷ [] else pending) in
    if sent then (if accepts == 0 then (false, m ∷ buffer, pending) else rest) else rest

-- The end of `keep_alive`: what was not answered goes back to the front of the buffer.
unfoldable pub disconnect : List Message → Connection → Connection
disconnect pending s = record s { buffer = pending ++ s.buffer; phase = connecting }

abbrev flushed : Connection → Bool × List Message × List Message → Connection
flushed s (true, buffer, pending) = record s { buffer = buffer; phase = alive pending }
flushed s (false, buffer, pending) = disconnect pending (record s { buffer = buffer })

-- The top of the loop of `keep_alive`.
unfoldable pub transmit : ℕ → List Message → Connection → Connection
transmit accepts pending s = flushed s (flush s.closed accepts s.buffer pending)

-- What happens to the task: the result of a connection attempt, the end of a wait, a message of the
-- caller, a frame of the peer or the end of its stream, and a caller that cancels. The number says how
-- many messages the stream takes before it fails.
pub data Event : Type 0 where
  connected : ℕ → Event
  failed elapsed : Event
  received : Message → ℕ → Event
  answered : Bytes → ℕ → Event
  lost : Event
  cancelled : ℕ → Event

abbrev min : ℕ → ℕ → ℕ
min a b = if ltb b a then b else a

unfoldable pub answer : Bytes → ℕ → List Message → Connection → Connection
answer bytes accepts [] s = disconnect [] s
answer bytes accepts (m ∷ pending) s =
    transmit accepts pending (record s { acknowledged = s.acknowledged ++ (m, bytes) ∷ [] })

-- One event in a phase; `none` where it cannot happen.
unfoldable pub handle : Event → Phase → Connection → Option Connection
handle (cancelled h) phase s = some (record s { closed = h ∷ s.closed })
handle (connected accepts) connecting s =
    some (transmit accepts [] (record s { delay = s.retry_delay; retry = 0 }))
handle failed connecting s = some (record s { phase = waiting })
handle elapsed waiting s = some (record s {
  delay = min (2 * s.delay) 60_000;
  retry = (s.retry + 1) % 2 ^ 16;
  phase = connecting;
})
handle (received m accepts) waiting s =
    some (record s { buffer = select (is_open s.closed) (s.buffer ++ m ∷ []) })
handle (received m accepts) (alive pending) s =
    some (transmit accepts pending (record s { buffer = s.buffer ++ m ∷ [] }))
handle (answered bytes accepts) (alive pending) s = some (answer bytes accepts pending s)
handle lost (alive pending) s = some (disconnect pending s)
handle _ _ s = none

unfoldable pub step : Event → Connection → Option Connection
step e s = handle e s.phase s

unfoldable pub run : List Event → Connection → Option Connection
run [] s = some s
run (e ∷ events) s = do s' ← step e s; run events s'
