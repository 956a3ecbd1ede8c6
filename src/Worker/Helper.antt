-- ===== src/Worker/Helper.antt =====
-- worker/src/helper.rs: answers the other workers' requests for batches.
use narwhal_td.Base.{Option, none, some, List, [], ◌∷◌, ◌++◌}
use narwhal_td.Base.Results.{Result, ok, err, panic}
use narwhal_td.Crypto.{PublicKey, Digest, to_vec}
use narwhal_td.Config.{Committee, ConfigError, WorkerAddresses, WorkerId, SocketAddr, worker}
use narwhal_td.Store.{Puts, Value, StoreResult, Rocksdb}

-- One digest: what the store has under it is sent as it is; an error of the store is logged.
unfoldable pub answer_one : SocketAddr → StoreResult (Option Value) → List (SocketAddr × Value)
answer_one address (ok (some bytes)) = (address, bytes) ∷ []
answer_one address (ok none) = []
answer_one address (err e) = []
answer_one address panic = []

unfoldable pub answer_all : Rocksdb → Puts → SocketAddr → List Digest → List (SocketAddr × Value)
answer_all r db address [] = []
answer_all r db address (digest ∷ digests) =
    answer_one address (r.get db (to_vec digest)) ++ answer_all r db address digests

unfoldable pub answer_origin :
    Rocksdb → Puts → List Digest → Result ConfigError WorkerAddresses → List (SocketAddr × Value)
answer_origin r db digests (ok x) = answer_all r db x.worker_to_worker digests
answer_origin r db digests (err e) = []
answer_origin r db digests panic = []

-- The loop's body for one request; one that names no worker of the committee is logged and dropped.
unfoldable pub receive :
    Rocksdb → WorkerId → Committee → Puts → List Digest × PublicKey → List (SocketAddr × Value)
receive r id c db (digests, origin) = answer_origin r db digests (worker c origin id)
