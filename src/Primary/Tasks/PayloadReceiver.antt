-- ===== src/Primary/Tasks/PayloadReceiver.antt =====
-- primary/src/payload_receiver.rs: marks the batches that our workers hold.
use narwhal_td.Base.{[]}
use narwhal_td.Crypto.{Digest}
use narwhal_td.Config.{WorkerId}
use narwhal_td.Store.{StoreCommand, write}
use narwhal_td.Primary.Synchronizer.{payload_key}

-- The loop's body for one digest of a worker: the command to the store.
unfoldable pub receive : Digest × WorkerId → StoreCommand
receive (digest, worker_id) = write (payload_key digest worker_id) []
