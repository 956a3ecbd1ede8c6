-- ===== src/Network/Tests.antt =====
-- The theorems on the reliable sender, at a connection that breaks and one that stays up.
use narwhal_td.Base.{
  ℕ, ◌≡◌, refl, sym, subst, Bool, Option, none, some, List, [], ◌∷◌, ◌++◌, select, arith, ◌==◌,
}
use narwhal_td.Base.Set
use narwhal_td.Network.Reliable
use narwhal_td.Network.Reliable.{
  Message, Connection, spawn, Event, connected, failed, elapsed, received, answered, lost,
  cancelled, run,
}
use narwhal_td.Network.Reliable.Live.{IsLive}
use narwhal_td.Network.Reliable.Delivery.{answers, zip, connected_with, run-delivers}
use narwhal_td.Network.Reliable.Order.{messages, arrivals, run-messages}

abbrev message : ℕ → Message
message n = record { content = n ∷ []; cancel_handler = n }

-- The caller of the second message cancels it.
abbrev kept : Message → Bool
kept m = m.cancel_handler == 1

abbrev events : List Event
events =
    failed
    ∷ received (message 1) 0
    ∷ elapsed
    ∷ connected 5
    ∷ received (message 2) 0
    ∷ cancelled 2
    ∷ connected 1
    ∷ answered (7 ∷ []) 1
    ∷ lost
    ∷ []

abbrev state_of : Option Connection → Connection
state_of none = spawn 9
state_of (some s) = s

abbrev after : Connection
after = state_of (run events (spawn 9))

ran : run events (spawn 9) ≡ some after
unfolding run Reliable.step Reliable.handle spawn Reliable.transmit Reliable.flush select
    Set.contains Reliable.disconnect Reliable.answer
ran = refl

closed_after : after.closed ≡ 2 ∷ []
unfolding run Reliable.step Reliable.handle spawn Reliable.transmit Reliable.flush select
    Set.contains Reliable.disconnect Reliable.answer
closed_after = refl

only_second : IsLive kept (2 ∷ [])
unfolding Set.contains
only_second = λ m picked. ground (arith, picked)

live : IsLive kept after.closed
live = subst (IsLive kept) (sym closed_after) only_second

run-messages_example :
    select kept (messages after) ≡ select kept (messages (spawn 9)) ++ select kept (arrivals events)
run-messages_example = run-messages kept events (spawn 9) after ran live

abbrev loaded : Connection
loaded = record (spawn 9) { buffer = message 1 ∷ message 2 ∷ [] }

run-delivers_example :
    run (connected 3 ∷ answers ((5 ∷ []) ∷ (6 ∷ []) ∷ [])) loaded
    ≡ some (
        connected_with []
          (loaded.acknowledged ++ zip loaded.buffer ((5 ∷ []) ∷ (6 ∷ []) ∷ []))
          (record loaded { delay = loaded.retry_delay; retry = 0 }))
unfolding spawn Set.contains
run-delivers_example =
    run-delivers loaded 3 ((5 ∷ []) ∷ (6 ∷ []) ∷ []) refl (refl, (refl, tt)) (omega arith) refl
