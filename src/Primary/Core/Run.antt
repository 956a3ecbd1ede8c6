-- ===== src/Primary/Core/Run.antt =====
-- `Core::run` of primary/src/core.rs: one message at a time, then the cleanup.
pub mod Safety
pub mod Keeps
pub mod Constants
pub mod Delivery
pub mod Votes
mod Tests
use narwhal_td.Base.{ℕ, ◌-◌, Bool, Option, none, some, List, [], ◌∷◌, ◌++◌, ltb, leb, if◌then◌else◌}
use narwhal_td.Base.Map
use narwhal_td.Base.Results.{Result, ok, err, panic}
use narwhal_td.Store.{Puts}
use narwhal_td.Primary.Error.{DagResult, store_error}
use narwhal_td.Primary.Header.{Header, Round}
use narwhal_td.Primary.Vote.{Vote}
use narwhal_td.Primary.Certificate.{Certificate}
use narwhal_td.Primary.Platform.{
  Platform, PrimaryMessage, header, vote, certificate, certificates_request,
}
use narwhal_td.Primary.Core.State.{Core, Exec, ◌>>=◌, ◌>>◌, raise, query}
use narwhal_td.Primary.Core.Sanitize.{sanitize_header, sanitize_vote, sanitize_certificate}
use narwhal_td.Primary.Core.Process.{
  depth, process_header, process_vote, process_certificate, process_own_header,
}

-- What `select!` receives: from other primaries, from the two waiters, from the proposer.
pub data Event : Type 0 where
  from_primaries : PrimaryMessage → Event
  from_header_waiter : Header → Event
  from_certificate_waiter : Certificate → Event
  from_proposer : Header → Event

unfoldable pub handle_message : Platform → PrimaryMessage → Exec Unit
handle_message p (header h) = do query (λ s. sanitize_header p s h); process_header p depth h
handle_message p (vote v) = do query (λ s. sanitize_vote p s v); process_vote p v
handle_message p (certificate c) = do
  query (λ s. sanitize_certificate p s c)
  process_certificate p c
handle_message p (certificates_request missing requestor) = raise panic

unfoldable pub handle : Platform → Event → Exec Unit
handle p (from_primaries message) = handle_message p message
handle p (from_header_waiter h) = process_header p depth h
handle p (from_certificate_waiter c) = process_certificate p c
handle p (from_proposer h) = process_own_header p h

unfoldable pub collect : Round → Core → Core
collect gc_round s = record s {
  last_voted = Map.retain (leb gc_round) s.last_voted;
  processing = Map.retain (leb gc_round) s.processing;
  certificates_aggregators = Map.retain (leb gc_round) s.certificates_aggregators;
  cancel_handlers = Map.retain (leb gc_round) s.cancel_handlers;
  gc_round = gc_round;
}

-- The cleanup, for the round of consensus that was read.
unfoldable pub cleanup : Round → Core → Core
unfolding collect
cleanup round s = if ltb s.gc_depth round then collect (round - s.gc_depth) s else s

-- A storage failure and a panic end the task: `none`. Any other error is logged.
unfoldable pub after : DagResult Unit → Round → Core → Option Core
after (ok _) round s = some (cleanup round s)
after (err store_error) round s = none
after (err e) round s = some (cleanup round s)
after panic round s = none

-- One round of the loop: `writes` is what other tasks have written to the store since the last one,
-- and `round` the value of `consensus_round` that is read at its end.
pub record Input : Type 0 where
  pub writes : Puts
  pub event : Event
  pub round : Round

unfoldable pub step : Platform → Input → Core → Option Core
unfolding after
step p i s =
    let (r, s') = handle p i.event (record s { db = i.writes ++ s.db }) in after r i.round s'

-- The loop over a sequence of inputs; `none` if the task has ended.
unfoldable pub run : Platform → List Input → Core → Option Core
run p [] s = some s
run p (i ∷ inputs) s = elim (step p i s) [ none ↦ none | some s' ↦ run p inputs s' ]
