-- ===== src/Primary/Tasks/Tests.antt =====
-- A connection of another primary that sends a certificates request, something unreadable, and a header.
use narwhal_td.Base.{◌≡◌, refl, Option, none, some, List, [], ◌∷◌, ◌==◌, if◌then◌else◌}
use narwhal_td.Primary.Error.{serialization_error}
use narwhal_td.Primary.Header.{default_header}
use narwhal_td.Primary.Platform.{PrimaryMessage, header, certificates_request}
use narwhal_td.Network.Reliable.{Bytes}
use narwhal_td.Network.Receiver.{Frame, received, dispatch_error, spawn_runner}
use narwhal_td.Network.Receiver.Prefix.{Dispatched, spawn_runner-Dispatched}
use narwhal_td.Primary.Tasks.Handlers.{
  reply_ack, deliver, to_helper, primary_handler, dispatch_primary,
}

abbrev deserialize : Bytes → Option PrimaryMessage
deserialize [] = none
deserialize (x ∷ xs) =
    if x == 1 then some (certificates_request (7 ∷ []) 2) else some (header default_header)

abbrev frames : List Frame
frames = received (1 ∷ []) ∷ received [] ∷ received (2 ∷ []) ∷ []

outcome : spawn_runner (primary_handler deserialize) frames ≡ (
  reply_ack ∷ deliver (to_helper (7 ∷ []) 2) ∷ reply_ack ∷ [],
  dispatch_error serialization_error,
)
unfolding spawn_runner primary_handler dispatch_primary
outcome = refl

spawn_runner-Dispatched_example :
    Dispatched
      (primary_handler deserialize)
      frames
      (spawn_runner (primary_handler deserialize) frames).0
      (spawn_runner (primary_handler deserialize) frames).1
spawn_runner-Dispatched_example = spawn_runner-Dispatched (primary_handler deserialize) frames
