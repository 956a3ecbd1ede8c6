-- ===== src/Worker/Handlers.antt =====
-- The handlers of worker/src/worker.rs for the messages of other workers and of the primary.
use narwhal_td.Base.{Option, none, some, List, [], ◌∷◌}
use narwhal_td.Base.Options.{◌>>=◌}
use narwhal_td.Crypto.{PublicKey, Digest}
use narwhal_td.Base.Results.{ok}
use narwhal_td.Network.Receiver.{MessageHandler}
use narwhal_td.Primary.Platform.{PrimaryWorkerMessage}
use narwhal_td.Worker.Platform.{
  Bytes, WorkerMessage, batch, decryptable_batch, batch_request, Platform,
  ThresholdDecryptionService, ciphertexts, request_decryption,
}

-- What a message makes the handler do, in order.
pub data Action : Type 0 where
  reply_shares : Bytes → Action
  reply_ack : Action
  to_processor : Bytes → Action
  to_helper : List Digest → PublicKey → Action

-- `WorkerReceiverHandler::dispatch` on the bytes and what bincode makes of them; `none` is a panic.
unfoldable pub handle_message :
    Platform → ThresholdDecryptionService → Bytes → Option WorkerMessage → Option (List Action)
handle_message p service serialized none = some []
handle_message p service serialized (some (batch txs)) = do
  cts ← ciphertexts p txs
  shares ← request_decryption p service cts
  some (reply_shares (p.serialize_shares shares) ∷ [])
handle_message p service serialized (some (decryptable_batch txs shares)) =
    some (reply_ack ∷ to_processor serialized ∷ [])
handle_message p service serialized (some (batch_request missing requestor)) =
    some (reply_ack ∷ to_helper missing requestor ∷ [])

unfoldable pub dispatch : Platform → ThresholdDecryptionService → Bytes → Option (List Action)
dispatch p service serialized =
    handle_message p service serialized (p.deserialize_message serialized)

-- `TxReceiverHandler::dispatch`: the transaction goes to the batch maker.
unfoldable pub dispatch_transaction : {E : Type 0} → MessageHandler E Bytes
dispatch_transaction message = (message ∷ [], ok tt)

-- `PrimaryReceiverHandler::dispatch`, over what bincode makes of the bytes: what it cannot read is
-- logged only.
unfoldable pub dispatch_primary :
    {E : Type 0} → (Bytes → Option PrimaryWorkerMessage) → MessageHandler E PrimaryWorkerMessage
dispatch_primary deserialize serialized = elim (deserialize serialized) [
  | none ↦ ([], ok tt)
  | some message ↦ (message ∷ [], ok tt)
]
