-- ===== src/Primary/Tests.antt =====
-- The theorems on the tasks of the primary, in a committee of four.
use narwhal_td.Base.{
  ◌||◌, ℕ, suc, ◌≤◌, ◌≡◌, ◌↔◌, ◌⊎◌, refl, Bool, true, false, Option, none, some, List, [], ◌∷◌,
  arith, any, All, leb, length, of_be_bytes, be_bytes, le_bytes, add64, add32, mul32, if◌then◌else◌,
}
use narwhal_td.Base.Map
use narwhal_td.Base.Set
use narwhal_td.Base.Results.{ok}
use narwhal_td.Crypto
use narwhal_td.Crypto.{default_signature, finalize, request_signature}
use narwhal_td.Config
use narwhal_td.Config.{stake, sum_stakes, quorum_threshold, validity_threshold}
use narwhal_td.Config.Quorum.{weight, common}
use narwhal_td.Primary.Header
use narwhal_td.Primary.Header.{Header, hashed_bytes}
use narwhal_td.Primary.Vote
use narwhal_td.Primary.Vote.{Vote}
use narwhal_td.Primary.Synchronizer
use narwhal_td.Primary.Core.State
use narwhal_td.Primary.Core.Process
use narwhal_td.Primary.Core.Run
use narwhal_td.Primary.Certificate
use narwhal_td.Primary.Certificate.{Certificate, verify, eq, genesis, sum_votes, verify_votes}
use narwhal_td.Primary.Certificate.Quorum.{IsCertified, signers, verify_iff, verify_overlap}
use narwhal_td.Primary.Aggregators.{new_votes, new_certificates}
use narwhal_td.Primary.Aggregators.Once.{enrol, voters, votes_quorum_once, certificates_quorum_once}
use narwhal_td.Primary.Aggregators.Runs.{run_votes, run_certificates}
use narwhal_td.Primary.Aggregators.Content.{origins, IsAssembled, AreParentsOf}
use narwhal_td.Primary.Proposer
use narwhal_td.Primary.Proposer.{Event, from_core, from_workers, timer}
use narwhal_td.Primary.Proposer.Digests.{is_held, digests_of, run-is_held}
use narwhal_td.Primary.Proposer.Rounds.{IsIncreasing, run-IsIncreasing}
use narwhal_td.Primary.Core.State.{Core, spawn}
use narwhal_td.Primary.Core.Process.{process_header, depth}
use narwhal_td.Primary.Core.Process.Depth.{process_header-depth}
use narwhal_td.Primary.Core.Voting.{votes_sent}
use narwhal_td.Primary.Core.Run.{Input, from_header_waiter, run}
use narwhal_td.Primary.Core.Run.Safety.{run-single_vote}
use narwhal_td.Config.Tests.{keyed, fits}
use narwhal_td.Samples.{primitives, committee, service, platform, header, certificate}

abbrev first : Certificate
first = certificate 1 1 [] (1 ∷ 2 ∷ 3 ∷ [])

abbrev second : Certificate
second = certificate 1 1 (7 ∷ []) (2 ∷ 3 ∷ 4 ∷ [])

verified :
    (verify primitives committee first ≡ ok tt) × (verify primitives committee second ≡ ok tt)
unfolding verify any genesis eq Header.digest finalize of_be_bytes hashed_bytes be_bytes le_bytes
    Header.verify stake Map.lookup Header.verify_workers sum_votes verify_votes Crypto.verify
    Set.contains Set.insert quorum_threshold add32 mul32 sum_stakes Crypto.verify_batch
verified = (refl, refl)

new_ones :
    (any (eq first) (genesis committee) ≡ false) × (any (eq second) (genesis committee) ≡ false)
unfolding any eq genesis Header.digest finalize of_be_bytes hashed_bytes be_bytes le_bytes
new_ones = (refl, refl)

verify_overlap_example :
    validity_threshold committee ≤ weight committee (common (signers first) (signers second))
verify_overlap_example =
    verify_overlap committee keyed fits primitives first second verified.0 verified.1 new_ones.0
      new_ones.1

verify_iff_example : (verify primitives committee first ≡ ok tt) ↔ (
    (any (eq first) (genesis committee) ≡ true) ⊎ IsCertified committee keyed fits primitives first)
verify_iff_example = verify_iff committee keyed fits primitives first

abbrev vote : ℕ → Vote
vote n = record { id = 5; round = 1; origin = 1; author = n; signature = default_signature }

abbrev five_votes : List Vote
five_votes = vote 1 ∷ vote 2 ∷ vote 2 ∷ vote 3 ∷ vote 4 ∷ []

votes_quorum_once_example :
    (length (run_votes committee (header 1 1 []) new_votes five_votes) ≡ (
      if leb (quorum_threshold committee) (weight committee (enrol [] (voters five_votes)))
      then 1
      else 0))
    × All
        (IsAssembled committee (header 1 1 []) five_votes)
        (run_votes committee (header 1 1 []) new_votes five_votes)
votes_quorum_once_example = votes_quorum_once committee keyed fits (header 1 1 []) five_votes

abbrev three_certificates : List Certificate
three_certificates = certificate 1 1 [] [] ∷ certificate 2 1 [] [] ∷ certificate 3 1 [] [] ∷ []

certificates_quorum_once_example :
    (length (run_certificates primitives committee new_certificates three_certificates) ≡ (
      if leb (quorum_threshold committee) (weight committee (enrol [] (origins three_certificates)))
      then 1
      else 0))
    × All
        (AreParentsOf primitives committee three_certificates)
        (run_certificates primitives committee new_certificates three_certificates)
certificates_quorum_once_example =
    certificates_quorum_once committee keyed fits primitives three_certificates

abbrev block : Header
block = header 2 1 (1 ∷ 2 ∷ 3 ∷ [])

abbrev primary : Core
primary = spawn platform 1 committee [] service 50

process_header-depth_example :
    process_header platform (suc (suc 3)) block primary
    ≡ process_header platform depth block primary
process_header-depth_example = process_header-depth platform 3 block primary

-- Two different headers of authority 2 for round 1.
abbrev inputs : List Input
inputs =
    record { writes = []; event = from_header_waiter block; round = 0 }
    ∷ record { writes = []; event = from_header_waiter (header 2 1 (2 ∷ 3 ∷ 4 ∷ [])); round = 1 }
    ∷ []

abbrev after_run : Option Core → Core
after_run none = primary
after_run (some s) = s

abbrev final : Core
final = after_run (run platform inputs primary)

ran : (run platform inputs primary ≡ some final) × (final.gc_round ≡ 0)
unfolding Run.run Run.step Run.handle process_header Process.process_header_with State.◌>>=◌
    Process.mark_processing Process.get_parents State.query Synchronizer.get_parents
    Synchronizer.find_parents Synchronizer.find_genesis spawn Synchronizer.genesis genesis
    Certificate.digest finalize of_be_bytes be_bytes le_bytes Process.check_parents
    Process.enough_parents Process.sum_parents stake Map.lookup Map.update Map.insert Set.insert
    Set.contains add32 mul32 add64 quorum_threshold sum_stakes Process.missing_payload
    Synchronizer.missing_payload Synchronizer.missing_batches Process.accept_header
    Process.check_header Process.write Process.register Process.vote_for Process.deliver_vote
    Process.to_author State.send State.modify State.raise State.pure State.continue State.emit
    Vote.new Vote.digest request_signature Run.after Run.cleanup Config.primary
ran = (refl, refl)

run-single_vote_example : votes_sent 1 2 final.sent ≤ 1
run-single_vote_example =
    run-single_vote platform 1 committee [] service 50 inputs final 1 2
      (omega arith, (omega arith, tt)) ran.0 (omega (arith, ran.1))

abbrev proposer_inputs : List (Bool × Event)
proposer_inputs = (true, from_workers 8 0) ∷ (false, from_core (5 ∷ 6 ∷ []) 1) ∷ (true, timer) ∷ []

abbrev proposer : Proposer.Proposer
proposer = Proposer.spawn primitives 1 committee service 1_000 100

abbrev after_proposing : Option Proposer.Proposer → Proposer.Proposer
after_proposing none = proposer
after_proposing (some s) = s

abbrev proposed : Proposer.Proposer
proposed = after_proposing (Proposer.run primitives proposer_inputs proposer)

proposer_ran : Proposer.run primitives proposer_inputs proposer ≡ some proposed
unfolding Proposer.run Proposer.step Proposer.propose Proposer.spawn genesis Proposer.make_header
    Header.new request_signature Proposer.receive add64
proposer_ran = refl

run-IsIncreasing_example :
    All (λ (h : Header). h.author ≡ 1) proposed.sent × IsIncreasing proposed.sent
run-IsIncreasing_example =
    run-IsIncreasing primitives 1 committee service 1_000 100 proposer_inputs proposed
      (tt, (omega arith, (tt, tt))) proposer_ran

run-is_held_example :
    is_held 8 proposed ≡ (is_held 8 proposer || Set.contains 8 (digests_of proposer_inputs))
run-is_held_example = run-is_held primitives 8 proposer_inputs proposer proposed proposer_ran
