-- ===== src/Primary/Tasks/Helper.antt =====
-- primary/src/helper.rs: answers the other primaries' requests for certificates.
use narwhal_td.Base.{Option, none, some, List, [], ◌∷◌, ◌++◌}
use narwhal_td.Base.Results.{Result, ok, err, panic}
use narwhal_td.Crypto.{PublicKey, Digest, to_vec}
use narwhal_td.Config.{Committee, ConfigError, PrimaryAddresses, SocketAddr, primary}
use narwhal_td.Store.{Puts, Value, StoreResult}
use narwhal_td.Primary.Platform.{Platform, PrimaryMessage, certificate}

abbrev Messages : Type 0
Messages = List (SocketAddr × PrimaryMessage)

-- One digest: a certificate in the store is sent, a digest that is not there is skipped, an error
-- of the store is logged. `none` is a panic.
unfoldable pub answer_one : Platform → SocketAddr → StoreResult (Option Value) → Option Messages
answer_one p address (ok (some bytes)) = elim (p.deserialize_certificate bytes) [
  | none ↦ none
  | some x ↦ some ((address, certificate x) ∷ [])
]
answer_one p address (ok none) = some []
answer_one p address (err e) = some []
answer_one p address panic = none

unfoldable pub answer_all : Platform → Puts → SocketAddr → List Digest → Option Messages
answer_all p db address [] = some []
answer_all p db address (digest ∷ digests) =
    let rest = answer_all p db address digests in
    elim (answer_one p address (p.rocksdb.get db (to_vec digest))) [
      | none ↦ none
      | some sent ↦ elim rest [ none ↦ none | some more ↦ some (sent ++ more) ]
    ]

unfoldable pub answer_origin :
    Platform → Puts → List Digest → Result ConfigError PrimaryAddresses → Option Messages
answer_origin p db digests (ok x) = answer_all p db x.primary_to_primary digests
answer_origin p db digests (err e) = some []
answer_origin p db digests panic = none

-- The loop's body for one request; one that names no authority is logged and dropped.
unfoldable pub receive : Platform → Committee → Puts → List Digest × PublicKey → Option Messages
receive p c db (digests, origin) = answer_origin p db digests (primary c origin)
