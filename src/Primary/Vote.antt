-- ===== src/Primary/Vote.antt =====
-- `Vote` of primary/src/messages.rs.
use narwhal_td.Base.{Option, none, some, ◌++◌, le_bytes, be_bytes, ltb}
use narwhal_td.Base.Results.{◌>>◌, ensure}
use narwhal_td.Crypto
use narwhal_td.Crypto.{
  PublicKey, Digest, Signature, Primitives, SignatureService, default_signature, finalize,
  request_signature,
}
use narwhal_td.Config.{Committee, stake}
use narwhal_td.Primary.Error.{DagResult, invalid_signature, unknown_authority}
use narwhal_td.Primary.Header.{Header, Round}

pub record Vote : Type 0 where
  pub id : Digest
  pub round : Round
  pub origin : PublicKey
  pub author : PublicKey
  pub signature : Signature

unfoldable pub digest : Primitives → Vote → Digest
digest p v = finalize p (be_bytes 32 v.id ++ (le_bytes 8 v.round ++ be_bytes 32 v.origin))

sign_with : Vote → Option Signature → Option Vote
sign_with vote none = none
sign_with vote (some signature) = some (record vote { signature = signature })

-- `Vote::new`; `none` is a panic of the signature service.
unfoldable pub new : Primitives → SignatureService → Header → PublicKey → Option Vote
unfolding sign_with
new p service header author =
    let vote : Vote = record {
      id = header.id;
      round = header.round;
      origin = header.author;
      author = author;
      signature = default_signature;
    } in
    sign_with vote (request_signature p service (digest p vote))

-- `Vote::verify`
unfoldable pub verify : Primitives → Committee → Vote → DagResult Unit
verify p c v = do
  ensure (ltb 0 (stake c v.author)) (unknown_authority v.author)
  ensure (Crypto.verify p v.signature (digest p v) v.author) invalid_signature
