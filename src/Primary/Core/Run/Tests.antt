-- ===== src/Primary/Core/Run/Tests.antt =====
-- The theorems on what the core sends, at a certificate whose parents are genesis certificates.
use narwhal_td.Base.{
  ◌≡◌, refl, Bool, true, false, Option, none, some, List, [], ◌∷◌, All, add32, add64, mul32, any,
  be_bytes, le_bytes, of_be_bytes,
}
use narwhal_td.Base.Map
use narwhal_td.Base.Set
use narwhal_td.Base.Results.{ok}
use narwhal_td.Crypto
use narwhal_td.Config
use narwhal_td.Store.Spec.{last_written}
use narwhal_td.Primary.Vote
use narwhal_td.Primary.Certificate
use narwhal_td.Primary.Certificate.{Certificate}
use narwhal_td.Primary.Aggregators
use narwhal_td.Primary.Synchronizer
use narwhal_td.Primary.Platform.{Platform, PrimaryMessage}
use narwhal_td.Primary.Core.State
use narwhal_td.Primary.Core.State.{Core, Effect, to_network, to_consensus, spawn}
use narwhal_td.Primary.Core.Process
use narwhal_td.Primary.Core.Delivery.{IsBacked}
use narwhal_td.Primary.Core.Run
use narwhal_td.Primary.Core.Run.{Input, from_certificate_waiter, run}
use narwhal_td.Primary.Core.Justified.{IsJustified}
use narwhal_td.Primary.Core.Run.Votes.{run-IsJustified}
use narwhal_td.Primary.Core.Run.Delivery.{run-IsBacked}
use narwhal_td.Samples.{platform, committee, service, certificate}

abbrev reliable : Platform
reliable = record platform {
  rocksdb = record { get = λ db key. ok (last_written key db) };
  serialize_header = λ h. h.id ∷ h.author ∷ h.round ∷ h.parents;
  serialize_certificate = λ c. c.header.id ∷ Certificate.round c ∷ Map.keys c.votes;
}

abbrev start : Core
start = spawn reliable 1 committee [] service 50

abbrev inputs : List Input
inputs =
    record {
      writes = [];
      event = from_certificate_waiter (certificate 2 1 (1 ∷ 2 ∷ 3 ∷ []) []);
      round = 0;
    }
    ∷ []

abbrev state_of : Option Core → Core
state_of none = start
state_of (some s) = s

abbrev after : Core
after = state_of (run reliable inputs start)

ran : run reliable inputs start ≡ some after
unfolding run Run.step Run.handle Process.process_certificate Process.process_certificate_with
    Process.is_processing Process.finish_certificate Process.deliver Process.accept_certificate
    Process.append_to_certificates Process.to_new_round Synchronizer.deliver_certificate
    Synchronizer.has_ancestors Synchronizer.read Aggregators.append_certificate
    Process.process_header Process.process_header_with State.◌>>=◌ Process.mark_processing
    Process.get_parents State.query Synchronizer.get_parents Synchronizer.find_parents
    Synchronizer.find_genesis spawn Synchronizer.genesis Certificate.genesis Certificate.digest
    Crypto.finalize of_be_bytes be_bytes le_bytes Process.check_parents Process.enough_parents
    Process.sum_parents Config.stake Map.lookup Map.update Map.insert Set.insert Set.contains add32
    mul32 add64 Config.quorum_threshold Config.sum_stakes Process.missing_payload
    Synchronizer.missing_payload Synchronizer.missing_batches Process.accept_header
    Process.check_header Process.write Process.register Process.vote_for Process.deliver_vote
    Process.to_author State.send State.modify State.raise State.pure State.continue State.emit
    Vote.new Vote.digest Crypto.request_signature Run.after Run.cleanup Config.primary
ran = refl

abbrev is_for_consensus : Effect → Bool
is_for_consensus (to_consensus c) = true
is_for_consensus _ = false

handed_over : any is_for_consensus after.sent ≡ true
unfolding any run Run.step Run.handle Process.process_certificate Process.process_certificate_with
    Process.is_processing Process.finish_certificate Process.deliver Process.accept_certificate
    Process.append_to_certificates Process.to_new_round Synchronizer.deliver_certificate
    Synchronizer.has_ancestors Synchronizer.read Aggregators.append_certificate
    Process.process_header Process.process_header_with State.◌>>=◌ Process.mark_processing
    Process.get_parents State.query Synchronizer.get_parents Synchronizer.find_parents
    Synchronizer.find_genesis spawn Synchronizer.genesis Certificate.genesis Certificate.digest
    Crypto.finalize of_be_bytes be_bytes le_bytes Process.check_parents Process.enough_parents
    Process.sum_parents Config.stake Map.lookup Map.update Map.insert Set.insert Set.contains add32
    mul32 add64 Config.quorum_threshold Config.sum_stakes Process.missing_payload
    Synchronizer.missing_payload Synchronizer.missing_batches Process.accept_header
    Process.check_header Process.write Process.register Process.vote_for Process.deliver_vote
    Process.to_author State.send State.modify State.raise State.pure State.continue State.emit
    Vote.new Vote.digest Crypto.request_signature Run.after Run.cleanup Config.primary
handed_over = refl

run-IsBacked_example :
    All (IsBacked reliable (Synchronizer.genesis reliable committee) after.db) after.sent
run-IsBacked_example =
    run-IsBacked reliable 1 committee [] service 50 inputs after (λ db key. refl) ran

abbrev is_vote : Effect → Bool
is_vote (to_network address (PrimaryMessage.vote v)) = true
is_vote _ = false

voted : any is_vote after.sent ≡ true
unfolding any run Run.step Run.handle Process.process_certificate Process.process_certificate_with
    Process.is_processing Process.finish_certificate Process.deliver Process.accept_certificate
    Process.append_to_certificates Process.to_new_round Synchronizer.deliver_certificate
    Synchronizer.has_ancestors Synchronizer.read Aggregators.append_certificate
    Process.process_header Process.process_header_with State.◌>>=◌ Process.mark_processing
    Process.get_parents State.query Synchronizer.get_parents Synchronizer.find_parents
    Synchronizer.find_genesis spawn Synchronizer.genesis Certificate.genesis Certificate.digest
    Crypto.finalize of_be_bytes be_bytes le_bytes Process.check_parents Process.enough_parents
    Process.sum_parents Config.stake Map.lookup Map.update Map.insert Set.insert Set.contains add32
    mul32 add64 Config.quorum_threshold Config.sum_stakes Process.missing_payload
    Synchronizer.missing_payload Synchronizer.missing_batches Process.accept_header
    Process.check_header Process.write Process.register Process.vote_for Process.deliver_vote
    Process.to_author State.send State.modify State.raise State.pure State.continue State.emit
    Vote.new Vote.digest Crypto.request_signature Run.after Run.cleanup Config.primary
voted = refl

run-IsJustified_example :
    All
      (IsJustified reliable (Synchronizer.genesis reliable committee) committee after.db)
      after.sent
run-IsJustified_example =
    run-IsJustified reliable 1 committee [] service 50 inputs after (λ db key. refl) ran
