-- ===== src/Network/Simple.antt =====
-- network/src/simple_sender.rs: a sender that makes no attempt to send a message again.
use narwhal_td.Base.{
  ℕ, ◌+◌, Bool, true, false, Option, none, some, List, [], ◌∷◌, ◌++◌, take, if◌then◌else◌,
}
use narwhal_td.Base.Map
use narwhal_td.Base.Map.{Map}
use narwhal_td.Base.Options.{◌>>=◌}
use narwhal_td.Config.{SocketAddr}
use narwhal_td.Network.Reliable.{Bytes}

-- `SimpleSender`: the number of the connection of each address, the count of connections spawned, and
-- what has been put into the channel of which connection, oldest first.
pub record SimpleSender : Type 0 where
  pub connections : Map ℕ
  pub spawned : ℕ
  pub sent : List (ℕ × Bytes)

unfoldable pub new : SimpleSender
new = record { connections = []; spawned = 0; sent = [] }

-- A new connection, whose channel takes the message or is closed already.
unfoldable pub send_new : Bool → SocketAddr → Bytes → SimpleSender → SimpleSender
send_new true address content s = record {
  connections = Map.insert address s.spawned s.connections;
  spawned = s.spawned + 1;
  sent = s.sent ++ (s.spawned, content) ∷ [];
}
send_new false address content s = record s { spawned = s.spawned + 1 }

-- `send`, by the connection that the map has; `is_ok` says which connections still take messages.
unfoldable pub send_by : (ℕ → Bool) → Option ℕ → SocketAddr → Bytes → SimpleSender → SimpleSender
send_by is_ok none address content s = send_new (is_ok s.spawned) address content s
send_by is_ok (some tx) address content s =
    if is_ok tx
    then record s { sent = s.sent ++ (tx, content) ∷ [] }
    else send_new (is_ok s.spawned) address content s

unfoldable pub send : (ℕ → Bool) → SocketAddr → Bytes → SimpleSender → SimpleSender
send is_ok address content s = send_by is_ok (Map.lookup address s.connections) address content s

-- The messages of a broadcast, each with the connections that take messages at that time.
unfoldable pub broadcast : List ((ℕ → Bool) × SocketAddr) → Bytes → SimpleSender → SimpleSender
broadcast [] content s = s
broadcast ((is_ok, address) ∷ addresses) content s =
    broadcast addresses content (send is_ok address content s)

-- The generator of random numbers is given by how it shuffles this time.
unfoldable pub lucky_broadcast :
    (List ((ℕ → Bool) × SocketAddr) → List ((ℕ → Bool) × SocketAddr))
    → List ((ℕ → Bool) × SocketAddr)
    → Bytes
    → ℕ
    → SimpleSender
    → SimpleSender
lucky_broadcast shuffle addresses content nodes s =
    broadcast (take nodes (shuffle addresses)) content s

-- `Connection`: the loop of `run` stands before the connection, or in it, or has returned.
pub data Phase : Type 0 where
  connecting connected ended : Phase

pub record Connection : Type 0 where
  pub address : SocketAddr
  pub phase : Phase
  pub written : List Bytes

unfoldable pub spawn : SocketAddr → Connection
spawn address = record { address = address; phase = connecting; written = [] }

-- The result of the connection attempt; a message, with whether the stream takes it; a reply of the peer, or
-- the end of its stream.
pub data Event : Type 0 where
  attempted : Bool → Event
  received : Bytes → Bool → Event
  replied lost : Event

-- `none` where an event cannot happen.
unfoldable pub handle : Event → Phase → Connection → Option Connection
handle (attempted true) connecting s = some (record s { phase = connected })
handle (attempted false) connecting s = some (record s { phase = ended })
handle (received content true) connected s = some (record s { written = s.written ++ content ∷ [] })
handle (received content false) connected s = some (record s { phase = ended })
handle replied connected s = some s
handle lost connected s = some (record s { phase = ended })
handle _ _ s = none

unfoldable pub run : List Event → Connection → Option Connection
run [] s = some s
run (e ∷ events) s = do s' ← handle e s.phase s; run events s'
