-- ===== src/Worker/Processor.antt =====
-- worker/src/processor.rs: stores a batch and tells the primary its digest.
use narwhal_td.Base.{Bool, true, false}
use narwhal_td.Crypto.{Primitives, Digest, finalize, to_vec}
use narwhal_td.Config.{WorkerId}
use narwhal_td.Store.{StoreCommand, write}
use narwhal_td.Primary.Platform.{WorkerPrimaryMessage, our_batch, others_batch}
use narwhal_td.Worker.Platform.{Bytes}

abbrev message_of : Bool → Digest → WorkerId → WorkerPrimaryMessage
message_of true digest id = our_batch digest id
message_of false digest id = others_batch digest id

-- The loop's body for one batch: the command to the store, then the message to the primary.
unfoldable pub receive : Primitives → WorkerId → Bool → Bytes → StoreCommand × WorkerPrimaryMessage
receive p id own_digest batch =
    let digest = finalize p batch in (write (to_vec digest) batch, message_of own_digest digest id)
