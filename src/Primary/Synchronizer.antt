-- ===== src/Primary/Synchronizer.antt =====
-- primary/src/synchronizer.rs: are the parents and the payload of a header at hand?
-- A query returns its result and the command that it sends to a waiter, if it sends one.
pub mod Ancestors
use narwhal_td.Base.{
  Bool, true, false, Option, none, some, List, [], ◌∷◌, ◌++◌, is_empty, le_bytes, ◌==◌,
  if◌then◌else◌,
}
use narwhal_td.Base.Map.{Map}
use narwhal_td.Base.Results.{ok, err, ◌>>=◌, map_err}
use narwhal_td.Crypto.{PublicKey, Digest, to_vec}
use narwhal_td.Config.{Committee, WorkerId}
use narwhal_td.Store.{Puts, Key, Value}
use narwhal_td.Primary.Error.{DagResult, store_error, serialization_error}
use narwhal_td.Primary.Header.{Header}
use narwhal_td.Primary.Certificate
use narwhal_td.Primary.Certificate.{Certificate}
use narwhal_td.Primary.Platform.{Platform, WaiterMessage, sync_batches, sync_parents}

-- `Store::read` with `?`.
unfoldable pub read : Platform → Puts → Key → DagResult (Option Value)
read p db key = map_err (λ _. store_error) (p.rocksdb.get db key)

-- `self.genesis`, with the digests
abbrev digests : Platform → List Certificate → List (Digest × Certificate)
digests p [] = []
digests p (x ∷ xs) = (Certificate.digest p.primitives x, x) ∷ digests p xs

unfoldable pub genesis : Platform → Committee → List (Digest × Certificate)
genesis p c = digests p (Certificate.genesis c)

unfoldable pub find_genesis : Digest → List (Digest × Certificate) → Option Certificate
find_genesis d [] = none
find_genesis d ((x, c) ∷ rest) = if x == d then some c else find_genesis d rest

-- `[digest.as_ref(), &worker_id.to_le_bytes()].concat()`
unfoldable pub payload_key : Digest → WorkerId → Key
payload_key digest worker_id = to_vec digest ++ le_bytes 4 worker_id

unfoldable pub missing_batch : Digest → WorkerId → Option Value → Map WorkerId → Map WorkerId
missing_batch digest worker_id none missing = (digest, worker_id) ∷ missing
missing_batch digest worker_id (some v) missing = missing

-- The loop over the payload.
unfoldable pub missing_batches : Platform → Puts → Map WorkerId → DagResult (Map WorkerId)
unfolding missing_batch
missing_batches p db [] = ok []
missing_batches p db ((digest, worker_id) ∷ payload) = do
  found ← read p db (payload_key digest worker_id)
  missing ← missing_batches p db payload
  ok (missing_batch digest worker_id found missing)

-- `Synchronizer::missing_payload`
unfoldable pub missing_payload :
    Platform → PublicKey → Puts → Header → DagResult (Bool × Option WaiterMessage)
missing_payload p name db header = if header.author == name then ok (false, none) else do
  missing ← missing_batches p db header.payload
  if is_empty missing then ok (false, none) else ok (true, some (sync_batches missing header))

unfoldable pub deserialize : Platform → Value → DagResult Certificate
deserialize p v = elim (p.deserialize_certificate v) [
  | none ↦ err serialization_error
  | some c ↦ ok c
]

-- One parent: its certificate, or `none` where it is missing.
unfoldable pub find_parent :
    Platform → Puts → Digest → Option Certificate → DagResult (Option Certificate)
unfolding deserialize
find_parent p db digest (some c) = ok (some c)
find_parent p db digest none = do
  found ← read p db (to_vec digest)
  elim found [ none ↦ ok none | some v ↦ do c ← deserialize p v; ok (some c) ]

abbrev pub sort_parent :
    Digest → Option Certificate → List Digest × List Certificate → List Digest × List Certificate
sort_parent digest none (missing, parents) = (digest ∷ missing, parents)
sort_parent digest (some c) (missing, parents) = (missing, c ∷ parents)

-- The loop over the parents: what is missing, and the certificates found.
unfoldable pub find_parents :
    Platform
    → List (Digest × Certificate)
    → Puts
    → List Digest
    → DagResult (List Digest × List Certificate)
unfolding find_parent
find_parents p known db [] = ok ([], [])
find_parents p known db (digest ∷ digests) = do
  found ← find_parent p db digest (find_genesis digest known)
  rest ← find_parents p known db digests
  ok (sort_parent digest found rest)

-- `Synchronizer::get_parents`
unfoldable pub get_parents :
    Platform
    → List (Digest × Certificate)
    → Puts
    → Header
    → DagResult (List Certificate × Option WaiterMessage)
get_parents p known db header = do
  (missing, parents) ← find_parents p known db header.parents
  if is_empty missing then ok (parents, none) else ok ([], some (sync_parents missing header))

abbrev pub is_none {ℓ} : {A : Type ℓ} → Option A → Bool
is_none none = true
is_none (some a) = false

-- The loop of `Synchronizer::deliver_certificate`: whether all the ancestors are there. It stops at
-- the first that is not.
unfoldable pub has_ancestors :
    Platform → List (Digest × Certificate) → Puts → List Digest → DagResult Bool
has_ancestors p known db [] = ok true
has_ancestors p known db (digest ∷ digests) =
    let rest = has_ancestors p known db digests in
    if is_none (find_genesis digest known)
    then (do found ← read p db (to_vec digest); if is_none found then ok false else rest)
    else rest

-- `Synchronizer::deliver_certificate`; where it is false the certificate goes to the
-- `CertificateWaiter`.
unfoldable pub deliver_certificate :
    Platform → List (Digest × Certificate) → Puts → Certificate → DagResult Bool
deliver_certificate p known db c = has_ancestors p known db c.header.parents
