-- ===== src/Primary/Header.antt =====
-- `Header` of primary/src/messages.rs: the block that an authority proposes for a round.
-- `payload` is a `BTreeMap` and `parents` a `BTreeSet`: both in the order of the digests.
use narwhal_td.Base.{ℕ, Option, none, some, List, [], ◌∷◌, ◌++◌, le_bytes, be_bytes, ◌==◌, ltb}
use narwhal_td.Base.Map
use narwhal_td.Base.Map.{Map}
use narwhal_td.Base.Results.{ok, ◌>>◌, ensure, map_err}
use narwhal_td.Crypto
use narwhal_td.Crypto.{
  PublicKey, Digest, Signature, Primitives, SignatureService, default_signature, finalize,
  request_signature,
}
use narwhal_td.Config.{Committee, WorkerId, stake, worker}
use narwhal_td.Primary.Error.{
  DagResult, invalid_signature, invalid_header_id, malformed_header, unknown_authority,
}

abbrev pub Round : Type 0
Round = ℕ

pub record Header : Type 0 where
  pub author : PublicKey
  pub round : Round
  pub payload : Map WorkerId
  pub parents : List Digest
  pub id : Digest
  pub signature : Signature

-- `Header::default`
abbrev pub default_header : Header
default_header = record {
  author = 0;
  round = 0;
  payload = [];
  parents = [];
  id = 0;
  signature = default_signature;
}

payload_bytes : Map WorkerId → List ℕ
payload_bytes [] = []
payload_bytes ((x, y) ∷ rest) = be_bytes 32 x ++ (le_bytes 4 y ++ payload_bytes rest)

parents_bytes : List Digest → List ℕ
parents_bytes [] = []
parents_bytes (x ∷ rest) = be_bytes 32 x ++ parents_bytes rest

-- What `Header::digest` feeds to the hasher.
unfoldable pub hashed_bytes : Header → List ℕ
unfolding payload_bytes parents_bytes
hashed_bytes h =
    be_bytes 32 h.author
    ++ (le_bytes 8 h.round ++ (payload_bytes h.payload ++ parents_bytes h.parents))

unfoldable pub digest : Primitives → Header → Digest
digest p h = finalize p (hashed_bytes h)

sign_with : Header → Digest → Option Signature → Option Header
sign_with header id none = none
sign_with header id (some signature) = some (record header { id = id; signature = signature })

-- `Header::new`; `none` is a panic of the signature service.
unfoldable pub new :
    Primitives → SignatureService → PublicKey → Round → Map WorkerId → List Digest → Option Header
unfolding sign_with
new p service author round payload parents =
    let header : Header = record {
      author = author;
      round = round;
      payload = payload;
      parents = parents;
      id = 0;
      signature = default_signature;
    } in
    let id = digest p header in sign_with header id (request_signature p service id)

-- The loop over `payload.values()`.
unfoldable pub verify_workers : Committee → Header → List WorkerId → DagResult Unit
verify_workers c h [] = ok tt
verify_workers c h (worker_id ∷ rest) = do
  map_err (λ _. malformed_header h.id) (worker c h.author worker_id)
  verify_workers c h rest

-- `Header::verify`
unfoldable pub verify : Primitives → Committee → Header → DagResult Unit
verify p c h = do
  ensure (digest p h == h.id) invalid_header_id
  ensure (ltb 0 (stake c h.author)) (unknown_authority h.author)
  verify_workers c h (Map.values h.payload)
  ensure (Crypto.verify p h.signature h.id h.author) invalid_signature
