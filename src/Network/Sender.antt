-- ===== src/Network/Sender.antt =====
-- network/src/reliable_sender.rs: the sender, which keeps a channel to one connection for each address.
use narwhal_td.Base.{
  ℕ, ◌+◌, ◌≡◌, refl, sym, ap, ◌∙◌, List, [], ◌∷◌, ◌++◌, take, arith, ◌==◌, if◌then◌else◌,
  Bool-cases, inl, inr,
}
use mathlib.Core.List.{append-nil, append_assoc}
use narwhal_td.Base.Map
use narwhal_td.Base.Map.{Map}
use narwhal_td.Config.{SocketAddr}
use narwhal_td.Network.Reliable.{Bytes, Message}

-- `ReliableSender`: what has been put into the channel of each connection, oldest first. `handlers` counts
-- the cancel handlers made; the number of a handler stands for both its ends.
pub record ReliableSender : Type 0 where
  pub connections : Map (List Message)
  pub handlers : ℕ

unfoldable pub new : ReliableSender
new = record { connections = []; handlers = 0 }

-- A connection is spawned for an address that has none; its task never ends, so its channel takes all.
unfoldable pub send : SocketAddr → Bytes → ReliableSender → ReliableSender × ℕ
send address content s = (
  record {
    connections =
        Map.update address []
          (λ ms. ms ++ record { content = content; cancel_handler = s.handlers } ∷ [])
          s.connections;
    handlers = s.handlers + 1;
  },
  s.handlers,
)

unfoldable pub broadcast : List SocketAddr → Bytes → ReliableSender → ReliableSender × List ℕ
broadcast [] content s = (s, [])
broadcast (address ∷ addresses) content s =
    let (s', handler) = send address content s in
    let (s'', handlers) = broadcast addresses content s' in (s'', handler ∷ handlers)

-- The generator of random numbers is given by how it shuffles this time.
unfoldable pub lucky_broadcast :
    (List SocketAddr → List SocketAddr)
    → List SocketAddr
    → Bytes
    → ℕ
    → ReliableSender
    → ReliableSender × List ℕ
lucky_broadcast shuffle addresses content nodes s =
    broadcast (take nodes (shuffle addresses)) content s

-- What the connection to an address has been given.
abbrev pub given : SocketAddr → ReliableSender → List Message
given a s = Map.or_default [] (Map.lookup a s.connections)

-- The messages to an address of a broadcast, whose handlers are these.
unfoldable pub addressed : SocketAddr → Bytes → List SocketAddr → List ℕ → List Message
addressed a content [] handlers = []
addressed a content (address ∷ addresses) [] = []
addressed a content (address ∷ addresses) (h ∷ handlers) =
    let rest = addressed a content addresses handlers in
    if address == a then record { content = content; cancel_handler = h } ∷ rest else rest

-- The numbers from the first on.
unfoldable pub numbers : ℕ → List SocketAddr → List ℕ
numbers first [] = []
numbers first (a ∷ addresses) = first ∷ numbers (first + 1) addresses

broadcast-handlers :
    (addresses : List SocketAddr) (content : Bytes) (s : ReliableSender)
    → (broadcast addresses content s).1 ≡ numbers s.handlers addresses
unfolding broadcast send numbers
broadcast-handlers [] content s = refl
broadcast-handlers (address ∷ addresses) content s =
    ap (λ (hs : List ℕ). s.handlers ∷ hs)
      (broadcast-handlers addresses content (send address content s).0)

send-given :
    (a address : SocketAddr) (content : Bytes) (s : ReliableSender)
    → given a (send address content s).0
      ≡ given a s ++ addressed a content (address ∷ []) (s.handlers ∷ [])
unfolding send addressed
send-given a address content s =
    let new : Message = record { content = content; cancel_handler = s.handlers } in
    let updated = Map.lookup-update address a [] (λ ms. ms ++ new ∷ []) s.connections in
    elim (Bool-cases (address == a)) [
      | inl same ↦
          let equal : address ≡ a = ground (arith, same) in
          rw updated (rw same (ap (λ (k : SocketAddr). given k s ++ new ∷ []) equal))
      | inr other ↦ rw updated (rw other (sym (append-nil (given a s))))
    ]

addressed-cons :
    (a address : SocketAddr) (content : Bytes) (h : ℕ) (addresses : List SocketAddr) (hs : List ℕ)
    → addressed a content (address ∷ addresses) (h ∷ hs)
      ≡ addressed a content (address ∷ []) (h ∷ []) ++ addressed a content addresses hs
unfolding addressed
addressed-cons a address content h addresses hs = elim (Bool-cases (address == a)) [
  | inl same ↦ rw same refl
  | inr other ↦ rw other refl
]

-- A broadcast gives the connection of each address one message for each time that the address stands in
-- the list, after those that it had, and returns as many new handlers, one for each address and in its
-- place: the messages carry the handlers of their places.
pub broadcast-given :
    (addresses : List SocketAddr) (content : Bytes) (s : ReliableSender) (a : SocketAddr)
    → (given a (broadcast addresses content s).0
        ≡ given a s ++ addressed a content addresses (broadcast addresses content s).1)
      × ((broadcast addresses content s).1 ≡ numbers s.handlers addresses)
unfolding broadcast addressed send
broadcast-given [] content s a = (sym (append-nil (given a s)), broadcast-handlers [] content s)
broadcast-given (address ∷ addresses) content s a =
    let s' = (send address content s).0 in
    let rest = broadcast-given addresses content s' a in
    let hs = (broadcast addresses content s').1 in
    (
      rest.0
          ∙ ap (λ (ms : List Message). ms ++ addressed a content addresses hs)
              (send-given a address content s)
          ∙ append_assoc (given a s) (addressed a content (address ∷ []) (s.handlers ∷ []))
              (addressed a content addresses hs)
          ∙ ap (λ (ms : List Message). given a s ++ ms)
              (sym (addressed-cons a address content s.handlers addresses hs)),
      broadcast-handlers (address ∷ addresses) content s,
    )
