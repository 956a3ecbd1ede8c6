-- ===== src/Primary/Certificate.antt =====
-- `Certificate` of primary/src/messages.rs: a header with the votes of a quorum.
pub mod Genesis
pub mod Quorum
use narwhal_td.Base.{
  ℕ, Bool, ◌&&◌, List, [], ◌∷◌, ◌++◌, le_bytes, be_bytes, any, add32, ltb, leb, ◌==◌, if◌then◌else◌,
}
use narwhal_td.Base.Map
use narwhal_td.Base.Map.{Map}
use narwhal_td.Base.Set
use narwhal_td.Base.Results.{Result, ok, err, ◌>>=◌, ◌>>◌, ensure}
use narwhal_td.Crypto
use narwhal_td.Crypto.{PublicKey, Digest, Signature, Primitives, finalize}
use narwhal_td.Config.{Committee, Authority, Stake, stake, quorum_threshold}
use narwhal_td.Primary.Error.{
  DagResult, invalid_signature, unknown_authority, authority_reuse, certificate_requires_quorum,
}
use narwhal_td.Primary.Header
use narwhal_td.Primary.Header.{Header, Round, default_header}

pub record Certificate : Type 0 where
  pub header : Header
  pub votes : List (PublicKey × Signature)

abbrev pub round : Certificate → Round
round c = c.header.round

abbrev pub origin : Certificate → PublicKey
origin c = c.header.author

-- `PartialEq for Certificate`: the votes are not compared.
unfoldable pub eq : Certificate → Certificate → Bool
eq x y = x.header.id == y.header.id && round x == round y && origin x == origin y

genesis_of : Map Authority → List Certificate
genesis_of [] = []
genesis_of ((name, x) ∷ rest) =
    record { header = record default_header { author = name }; votes = [] } ∷ genesis_of rest

unfoldable pub genesis : Committee → List Certificate
unfolding genesis_of
genesis c = genesis_of c.authorities

unfoldable pub digest : Primitives → Certificate → Digest
digest p c =
    finalize p (be_bytes 32 c.header.id ++ (le_bytes 8 (round c) ++ be_bytes 32 (origin c)))

-- The loop over the votes: the weight so far, the authorities used, the votes that are left.
unfoldable pub sum_votes :
    Committee → Stake → List PublicKey → List (PublicKey × Signature) → DagResult Stake
sum_votes c weight used [] = ok weight
sum_votes c weight used ((name, signature) ∷ votes) =
    let voting_rights = stake c name in
    let rest = sum_votes c (add32 weight voting_rights) (Set.insert name used) votes in
    if Set.contains name used
    then err (authority_reuse name)
    else if ltb 0 voting_rights
    then rest
    else err (unknown_authority name)

unfoldable pub verify_votes : Primitives → Committee → Certificate → DagResult Unit
verify_votes p c x = do
  Header.verify p c x.header
  weight ← sum_votes c 0 [] x.votes
  ensure (leb (quorum_threshold c) weight) certificate_requires_quorum
  ensure (Crypto.verify_batch p (digest p x) x.votes) invalid_signature

-- `Certificate::verify`
unfoldable pub verify : Primitives → Committee → Certificate → DagResult Unit
unfolding verify_votes
verify p c x = if any (eq x) (genesis c) then ok tt else verify_votes p c x
