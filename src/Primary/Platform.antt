-- ===== src/Primary/Platform.antt =====
-- What the tasks of the primary take from outside, and the messages that they exchange.
use narwhal_td.Base.{Option, List}
use narwhal_td.Base.Map.{Map}
use narwhal_td.Crypto.{Primitives, PublicKey, Digest}
use narwhal_td.Config.{WorkerId}
use narwhal_td.Store.{Rocksdb, Value}
use narwhal_td.Primary.Header.{Header, Round}
use narwhal_td.Primary.Vote.{Vote}
use narwhal_td.Primary.Certificate.{Certificate}

-- The cryptography, the database, and what bincode makes of the values that are stored.
pub record Platform : Type 0 where
  pub primitives : Primitives
  pub rocksdb : Rocksdb
  pub serialize_header : Header → Value
  pub serialize_certificate : Certificate → Value
  pub deserialize_certificate : Value → Option Certificate

-- primary/src/primary.rs
pub data PrimaryMessage : Type 0 where
  header : Header → PrimaryMessage
  vote : Vote → PrimaryMessage
  certificate : Certificate → PrimaryMessage
  certificates_request : List Digest → PublicKey → PrimaryMessage

pub data PrimaryWorkerMessage : Type 0 where
  synchronize : List Digest → PublicKey → PrimaryWorkerMessage
  cleanup : Round → PrimaryWorkerMessage

pub data WorkerPrimaryMessage : Type 0 where
  our_batch others_batch : Digest → WorkerId → WorkerPrimaryMessage

-- primary/src/header_waiter.rs
pub data WaiterMessage : Type 0 where
  sync_batches : Map WorkerId → Header → WaiterMessage
  sync_parents : List Digest → Header → WaiterMessage
