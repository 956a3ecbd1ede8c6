-- ===== src/Primary/Core/Process.antt =====
-- The `process_…` methods of primary/src/core.rs. They call one another: a header of our own calls
-- `process_vote`, which calls `process_certificate` when a quorum is reached, which calls
-- `process_header` for a header that it has not seen. Each takes the method that it calls as an
-- argument, and `process_header` ties the knot on fuel.
pub mod Depth
pub mod Parents
use narwhal_td.Base.{
  ℕ, zero, suc, Bool, true, false, not, Option, none, some, List, [], ◌∷◌, is_empty, add32, add64,
  leb, ◌==◌, if◌then◌else◌,
}
use narwhal_td.Base.Map
use narwhal_td.Base.Set
use narwhal_td.Base.Results.{Result, ok, err, panic, ensure}
use narwhal_td.Crypto.{Digest, to_vec}
use narwhal_td.Config
use narwhal_td.Config.{Committee, Stake, PrimaryAddresses, ConfigError, stake, quorum_threshold}
use narwhal_td.Primary.Error.{DagResult, malformed_header, header_requires_quorum}
use narwhal_td.Primary.Header.{Header, Round}
use narwhal_td.Primary.Vote
use narwhal_td.Primary.Vote.{Vote}
use narwhal_td.Primary.Certificate
use narwhal_td.Primary.Certificate.{Certificate}
use narwhal_td.Primary.Aggregators.{
  VotesAggregator, CertificatesAggregator, new_votes, new_certificates, append_vote,
  append_certificate,
}
use narwhal_td.Primary.Platform
use narwhal_td.Primary.Platform.{Platform, PrimaryMessage, WaiterMessage}
use narwhal_td.Primary.Synchronizer
use narwhal_td.Primary.Core.State.{
  Core, Exec, Effect, ◌>>=◌, ◌>>◌, pure, raise, query, modify, expect, emit, send, broadcast,
  to_header_waiter, to_certificate_waiter, to_proposer, to_consensus,
}

unfoldable pub write : Digest → List ℕ → Core → Core
write key value s = record s { db = (to_vec key, value) ∷ s.db }

-- `processing.entry(round).or_insert_with(HashSet::new).insert(id)`
unfoldable pub mark_processing : Header → Exec Unit
mark_processing header s = (
  ok tt,
  record s { processing = Map.update header.round [] (Set.insert header.id) s.processing },
)

unfoldable pub is_processing : Core → Header → Bool
is_processing s header =
    Set.contains header.id (Map.or_default [] (Map.lookup header.round s.processing))

-- Sends the command of a query of the `Synchronizer`, if there is one.
unfoldable pub notify_waiter : Option WaiterMessage → Exec Unit
notify_waiter none = pure tt
notify_waiter (some message) = emit (to_header_waiter message)

unfoldable pub get_parents : Platform → Header → Exec (List Certificate)
unfolding notify_waiter
get_parents p header = do
  (parents, command) ← query (λ s. Synchronizer.get_parents p s.genesis s.db header)
  notify_waiter command
  pure parents

unfoldable pub missing_payload : Platform → Header → Exec Bool
unfolding notify_waiter
missing_payload p header = do
  (missing, command) ← query (λ s. Synchronizer.missing_payload p s.name s.db header)
  notify_waiter command
  pure missing

-- The loop over the parents: all of the round before, and the sum of their stakes.
unfoldable pub sum_parents : Committee → Header → Stake → List Certificate → DagResult Stake
sum_parents c header sum [] = ok sum
sum_parents c header sum (x ∷ parents) =
    let rest = sum_parents c header (add32 sum (stake c (Certificate.origin x))) parents in
    if add64 (Certificate.round x) 1 == header.round then rest else err (malformed_header header.id)

unfoldable pub enough_parents : Committee → Header → DagResult Stake → DagResult Unit
enough_parents c header (ok sum) =
    ensure (leb (quorum_threshold c) sum) (header_requires_quorum header.id)
enough_parents c header (err e) = err e
enough_parents c header panic = panic

unfoldable pub check_parents : Committee → Header → List Certificate → DagResult Unit
unfolding enough_parents
check_parents c header parents = enough_parents c header (sum_parents c header 0 parents)

-- `last_voted.entry(round).or_insert_with(HashSet::new).insert(author)`: whether it is new.
unfoldable pub register : Header → Exec Bool
register header s = (
  ok (not (Set.contains header.author (Map.or_default [] (Map.lookup header.round s.last_voted)))),
  record s { last_voted = Map.update header.round [] (Set.insert header.author) s.last_voted },
)

unfoldable pub to_author : Header → Vote → Result ConfigError PrimaryAddresses → Exec Unit
to_author header vote (ok addresses) =
    send header.round addresses.primary_to_primary (PrimaryMessage.vote vote)
to_author header vote (err e) = raise panic
to_author header vote panic = raise panic

unfoldable pub deliver_vote : (Vote → Exec Unit) → Header → Option Vote → Exec Unit
unfolding to_author
deliver_vote process_vote header none = raise panic
deliver_vote process_vote header (some vote) = do
  name ← query (λ s. ok s.name)
  address ← query (λ s. ok (Config.primary s.committee header.author))
  if vote.origin == name then expect (process_vote vote) else to_author header vote address

-- Make a vote and send it to the header's creator, who may be this primary.
unfoldable pub vote_for : Platform → (Vote → Exec Unit) → Header → Exec Unit
vote_for p process_vote header = do
  vote ← query (λ s. ok (Vote.new p.primitives s.signature_service header s.name))
  deliver_vote process_vote header vote

-- Store the header, and vote for it if it is the first of its author in its round.
unfoldable pub accept_header : Platform → (Vote → Exec Unit) → Header → Exec Unit
accept_header p process_vote header = do
  modify (write header.id (p.serialize_header header))
  first ← register header
  if first then vote_for p process_vote header else pure tt

unfoldable pub check_header : Platform → (Vote → Exec Unit) → Header → List Certificate → Exec Unit
check_header p process_vote header parents = do
  query (λ s. check_parents s.committee header parents)
  missing ← missing_payload p header
  if missing then pure tt else accept_header p process_vote header

-- `process_header`
unfoldable pub process_header_with : Platform → (Vote → Exec Unit) → Header → Exec Unit
process_header_with p process_vote header = do
  mark_processing header
  parents ← get_parents p header
  if is_empty parents then pure tt else check_header p process_vote header parents

unfoldable pub append_to_votes : Vote → Exec (Option Certificate)
append_to_votes vote s =
    let (r, a) = append_vote s.votes_aggregator vote s.committee s.current_header in
    (r, record s { votes_aggregator = a })

unfoldable pub publish : (Certificate → Exec Unit) → Option Certificate → Exec Unit
publish process_certificate none = pure tt
publish process_certificate (some c) = do
  broadcast (Certificate.round c) (PrimaryMessage.certificate c)
  expect (process_certificate c)

-- `process_vote`
unfoldable pub process_vote_with : (Certificate → Exec Unit) → Vote → Exec Unit
unfolding append_to_votes publish
process_vote_with process_certificate vote = do
  certificate ← append_to_votes vote
  publish process_certificate certificate

unfoldable pub append_to_certificates : Platform → Certificate → Exec (Option (List Digest))
append_to_certificates p c s =
    let aggregator =
      Map.or_default new_certificates
        (Map.lookup (Certificate.round c) s.certificates_aggregators) in
    let (r, a) = append_certificate p.primitives aggregator c s.committee in
    (
      r,
      record s {
        certificates_aggregators = Map.insert (Certificate.round c) a s.certificates_aggregators;
      },
    )

unfoldable pub to_new_round : Certificate → Option (List Digest) → Exec Unit
to_new_round c none = pure tt
to_new_round c (some parents) = emit (to_proposer parents (Certificate.round c))

-- Store the certificate, propose a new round if it completes a quorum, and pass it to consensus.
unfoldable pub accept_certificate : Platform → Certificate → Exec Unit
unfolding append_to_certificates to_new_round
accept_certificate p c = do
  modify (write (Certificate.digest p.primitives c) (p.serialize_certificate c))
  parents ← append_to_certificates p c
  to_new_round c parents
  emit (to_consensus c)

-- `deliver_certificate`, with the certificate sent to the waiter where an ancestor is missing.
unfoldable pub deliver : Platform → Certificate → Exec Bool
deliver p c = do
  delivered ← query (λ s. Synchronizer.deliver_certificate p s.genesis s.db c)
  if delivered then pure true else do emit (to_certificate_waiter c); pure false

unfoldable pub finish_certificate : Platform → Certificate → Exec Unit
finish_certificate p c = do
  delivered ← deliver p c
  if delivered then accept_certificate p c else pure tt

-- `process_certificate`
unfoldable pub process_certificate_with : Platform → (Header → Exec Unit) → Certificate → Exec Unit
process_certificate_with p process_header c = do
  known ← query (λ s. ok (is_processing s c.header))
  if known then pure tt else process_header c.header
  finish_certificate p c

-- The methods, calling one another at most `fuel` headers deep; out of fuel is a panic, and
-- `Depth` shows that it is not met.
unfoldable pub process_header : Platform → ℕ → Header → Exec Unit
process_header p zero header = raise panic
process_header p (suc fuel) header =
    process_header_with p (process_vote_with (process_certificate_with p (process_header p fuel)))
      header

-- Two headers deep is as deep as the calls go.
abbrev pub depth : ℕ
depth = 2

unfoldable pub process_vote : Platform → Vote → Exec Unit
process_vote p = process_vote_with (process_certificate_with p (process_header p depth))

unfoldable pub process_certificate : Platform → Certificate → Exec Unit
process_certificate p = process_certificate_with p (process_header p depth)

-- `process_own_header`
unfoldable pub process_own_header : Platform → Header → Exec Unit
process_own_header p header = do
  modify (λ s. record s { current_header = header; votes_aggregator = new_votes })
  broadcast header.round (PrimaryMessage.header header)
  process_header p depth header
