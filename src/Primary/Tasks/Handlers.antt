-- ===== src/Primary/Tasks/Handlers.antt =====
-- The message handlers of primary/src/primary.rs: which channel each message goes to.
use narwhal_td.Base.{Option, none, some, List, [], ◌∷◌}
use narwhal_td.Base.Results.{ok, err, panic}
use narwhal_td.Crypto.{PublicKey, Digest}
use narwhal_td.Config.{WorkerId}
use narwhal_td.Network.Reliable.{Bytes}
use narwhal_td.Network.Receiver.{MessageHandler}
use narwhal_td.Primary.Error.{DagResult, DagError, serialization_error}
use narwhal_td.Primary.Platform.{
  PrimaryMessage, WorkerPrimaryMessage, certificates_request, our_batch, others_batch,
}

pub data PrimaryDelivery : Type 0 where
  to_core : PrimaryMessage → PrimaryDelivery
  to_helper : List Digest → PublicKey → PrimaryDelivery

-- `PrimaryReceiverHandler::dispatch` on what bincode makes of the bytes; the acknowledgement is
-- sent in any case.
unfoldable pub dispatch_primary : Option PrimaryMessage → DagResult PrimaryDelivery
dispatch_primary none = err serialization_error
dispatch_primary (some (certificates_request missing requestor)) = ok (to_helper missing requestor)
dispatch_primary (some request) = ok (to_core request)

pub data WorkerDelivery : Type 0 where
  to_proposer to_payload_receiver : Digest → WorkerId → WorkerDelivery

-- `WorkerReceiverHandler::dispatch`
unfoldable pub dispatch_worker : Option WorkerPrimaryMessage → DagResult WorkerDelivery
dispatch_worker none = err serialization_error
dispatch_worker (some (our_batch digest worker_id)) = ok (to_proposer digest worker_id)
dispatch_worker (some (others_batch digest worker_id)) = ok (to_payload_receiver digest worker_id)

-- What a handler of the primary does: the acknowledgement of another primary's message, and what goes
-- to a task.
pub data PrimaryAction : Type 0 where
  reply_ack : PrimaryAction
  deliver : PrimaryDelivery → PrimaryAction

delivered : DagResult PrimaryDelivery → List PrimaryAction × DagResult Unit
delivered (ok delivery) = (reply_ack ∷ deliver delivery ∷ [], ok tt)
delivered (err e) = (reply_ack ∷ [], err e)
delivered panic = (reply_ack ∷ [], panic)

-- The handler for other primaries, over what bincode makes of the bytes.
unfoldable pub primary_handler :
    (Bytes → Option PrimaryMessage) → MessageHandler DagError PrimaryAction
unfolding delivered
primary_handler deserialize serialized = delivered (dispatch_primary (deserialize serialized))
