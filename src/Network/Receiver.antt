-- ===== src/Network/Receiver.antt =====
-- network/src/receiver.rs: the task that serves one incoming connection, and its handler.
pub mod Prefix
use narwhal_td.Base.{Option, none, some, List, [], ◌∷◌, ◌++◌}
use narwhal_td.Base.Results.{Result, ok, err, panic}
use narwhal_td.Network.Reliable.{Bytes}

-- What the connection gives: a message, or an error of the codec or the socket.
pub data Frame : Type 0 where
  received : Bytes → Frame
  failed : Frame

-- `MessageHandler::dispatch`: what it sends to its channels and replies, in order, and its result.
abbrev pub MessageHandler : Type 0 → Type 0 → Type 0
MessageHandler E A = Bytes → List A × Result E Unit

-- Why the task ended.
pub data End (E : Type 0) : Type 0 where
  closed_by_peer : End E
  failed_to_receive : End E
  panicked : End E
  dispatch_error : E → End E

-- The end of the task after a message, or what it does with the rest of the frames.
abbrev pub after_dispatch : {E A : Type 0} → Result E Unit → List A × End E → List A × End E
after_dispatch (ok _) rest = rest
after_dispatch (err e) rest = ([], dispatch_error e)
after_dispatch panic rest = ([], panicked)

-- `Receiver::spawn_runner`, over the frames until the peer closes the connection.
unfoldable pub spawn_runner : {E A : Type 0} → MessageHandler E A → List Frame → List A × End E
spawn_runner handler [] = ([], closed_by_peer)
spawn_runner handler (failed ∷ frames) = ([], failed_to_receive)
spawn_runner handler (received message ∷ frames) =
    let rest = spawn_runner handler frames in
    let (actions, result) = handler message in
    let (others, stop) = after_dispatch result rest in (actions ++ others, stop)
