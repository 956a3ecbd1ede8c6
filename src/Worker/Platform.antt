-- ===== src/Worker/Platform.antt =====
-- The messages of worker/src/worker.rs, and what the tasks of the worker take from outside.
use narwhal_td.Base.{ℕ, Option, some, List, [], ◌∷◌}
use narwhal_td.Base.Options.{◌>>=◌}
use narwhal_td.Crypto.{Primitives, PublicKey, Digest}
use narwhal_td.Store.{Rocksdb}

-- Serialized data: a transaction's ciphertext, a batch message.
abbrev pub Bytes : Type 0
Bytes = List ℕ

abbrev pub Batch : Type 0
Batch = List Bytes

-- `NodeDecryptionShares` of crypto/src/lib.rs: a node's index, and its share of each transaction.
abbrev pub NodeDecryptionShares : Type 0
NodeDecryptionShares = ℕ × List Bytes

abbrev pub BatchDecryptionShares : Type 0
BatchDecryptionShares = List NodeDecryptionShares

pub data WorkerMessage : Type 0 where
  batch : Batch → WorkerMessage
  decryptable_batch : Batch → BatchDecryptionShares → WorkerMessage
  batch_request : List Digest → PublicKey → WorkerMessage

-- The cryptography, the database, what bincode makes of the messages, and the threshold scheme:
-- a secret share's decryption of a ciphertext, which fails on an invalid one.
pub record Platform : Type 0 where
  pub primitives : Primitives
  pub rocksdb : Rocksdb
  pub serialize_message : WorkerMessage → Bytes
  pub deserialize_message : Bytes → Option WorkerMessage
  pub deserialize_ciphertext : Bytes → Option Bytes
  pub serialize_shares : NodeDecryptionShares → Bytes
  pub deserialize_shares : Bytes → Option NodeDecryptionShares
  pub decrypt_share : Bytes → Bytes → Option Bytes

-- `ThresholdDecryptionService` of crypto/src/lib.rs, with what its task holds.
pub record ThresholdDecryptionService : Type 0 where
  pub sk_share : Bytes
  pub node_index : ℕ

-- The `unwrap` of each ciphertext of a batch.
unfoldable pub ciphertexts : Platform → Batch → Option (List Bytes)
ciphertexts p [] = some []
ciphertexts p (tx ∷ txs) = do x ← p.deserialize_ciphertext tx; xs ← ciphertexts p txs; some (x ∷ xs)

unfoldable pub decrypt_shares : Platform → Bytes → List Bytes → Option (List Bytes)
decrypt_shares p sk [] = some []
decrypt_shares p sk (ct ∷ cts) = do
  x ← p.decrypt_share sk ct
  xs ← decrypt_shares p sk cts
  some (x ∷ xs)

-- `request_decryption`, and the service's task; `none` is a panic.
unfoldable pub request_decryption :
    Platform → ThresholdDecryptionService → List Bytes → Option NodeDecryptionShares
request_decryption p service cts = do
  shares ← decrypt_shares p service.sk_share cts
  some (service.node_index, shares)
