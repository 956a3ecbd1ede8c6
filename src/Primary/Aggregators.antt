-- ===== src/Primary/Aggregators.antt =====
-- primary/src/aggregators.rs: votes into a certificate, and certificates into the parents of a round.
pub mod Content
pub mod Runs
pub mod Once
use narwhal_td.Base.{ℕ, Bool, Option, none, some, List, [], ◌∷◌, ◌++◌, add32, leb, if◌then◌else◌}
use narwhal_td.Base.Set
use narwhal_td.Base.Results.{Result, ok, err}
use narwhal_td.Crypto.{PublicKey, Digest, Signature, Primitives}
use narwhal_td.Config.{Committee, Stake, stake, quorum_threshold}
use narwhal_td.Primary.Error.{DagResult, authority_reuse}
use narwhal_td.Primary.Header.{Header}
use narwhal_td.Primary.Vote.{Vote}
use narwhal_td.Primary.Certificate
use narwhal_td.Primary.Certificate.{Certificate}

pub record VotesAggregator : Type 0 where
  pub weight : Stake
  pub votes : List (PublicKey × Signature)
  pub used : List PublicKey

pub record CertificatesAggregator : Type 0 where
  pub weight : Stake
  pub certificates : List Digest
  pub used : List PublicKey

abbrev pub new_votes : VotesAggregator
new_votes = record { weight = 0; votes = []; used = [] }

abbrev pub new_certificates : CertificatesAggregator
new_certificates = record { weight = 0; certificates = []; used = [] }

-- `VotesAggregator::append`: the result and the aggregator after the call.
unfoldable pub append_vote :
    VotesAggregator → Vote → Committee → Header → DagResult (Option Certificate) × VotesAggregator
append_vote a vote c header =
    let author = vote.author in
    let votes = a.votes ++ (author, vote.signature) ∷ [] in
    let used = Set.insert author a.used in
    let weight = add32 a.weight (stake c author) in
    if Set.contains author a.used
    then (err (authority_reuse author), a)
    else if leb (quorum_threshold c) weight
    then (
      ok (some (record { header = header; votes = votes })),
      record { weight = 0; votes = votes; used = used },
    )
    else (ok none, record { weight = weight; votes = votes; used = used })

-- `CertificatesAggregator::append`
unfoldable pub append_certificate :
    Primitives
    → CertificatesAggregator
    → Certificate
    → Committee
    → DagResult (Option (List Digest)) × CertificatesAggregator
append_certificate p a certificate c =
    let origin = Certificate.origin certificate in
    let certificates = a.certificates ++ Certificate.digest p certificate ∷ [] in
    let used = Set.insert origin a.used in
    let weight = add32 a.weight (stake c origin) in
    if Set.contains origin a.used
    then (ok none, a)
    else if leb (quorum_threshold c) weight
    then (ok (some certificates), record { weight = 0; certificates = []; used = used })
    else (ok none, record { weight = weight; certificates = certificates; used = used })
