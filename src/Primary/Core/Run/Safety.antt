-- ===== src/Primary/Core/Run/Safety.antt =====
-- What holds of `Core` after any sequence of inputs.
use mathlib.Core.Option.{some-injective, none-ne-some}
use narwhal_td.Base.{
  ◌-◌, ◌≤◌, ◌≡◌, refl, some, List, [], ◌∷◌, ◌++◌, arith, subst, ltb, leb, Bool-cases, Option-cases,
  inl, inr,
}
use narwhal_td.Base.Map.{lookup-retain}
use narwhal_td.Base.Results.{ok, err, panic}
use narwhal_td.Crypto.{PublicKey, SignatureService}
use narwhal_td.Config.{Committee}
use narwhal_td.Store.{Puts}
use narwhal_td.Primary.Error.{DagResult, store_error}
use narwhal_td.Primary.Header.{Round}
use narwhal_td.Primary.Platform.{
  Platform, PrimaryMessage, header, vote, certificate, certificates_request,
}
use narwhal_td.Primary.Core.State.{Core, spawn}
use narwhal_td.Primary.Core.Keeps.{
  Keeps, IsKept, keeps_rules, process_header-Keeps, process_vote-Keeps, process_certificate-Keeps,
  process_own_header-Keeps,
}
use narwhal_td.Primary.Core.Voting.{IsRecorded, votes_sent, kept}
use narwhal_td.Primary.Core.Run.{
  Event, from_primaries, from_header_waiter, from_certificate_waiter, from_proposer, Input,
  handle_message, handle, cleanup, after, step, run,
}

module _ (p : Platform) {P : Core → Type 0} (k : IsKept p P) where
  handle_message-Keeps : (m : PrimaryMessage) → Keeps P (handle_message p m)
  unfolding handle_message
  handle_message-Keeps (header h) = search (keeps_rules, process_header-Keeps p k)
  handle_message-Keeps (vote v) = search (keeps_rules, process_vote-Keeps p k)
  handle_message-Keeps (certificate c) = search (keeps_rules, process_certificate-Keeps p k)
  handle_message-Keeps (certificates_request d x) = search keeps_rules

  pub handle-Keeps : (e : Event) → Keeps P (handle p e)
  unfolding handle
  handle-Keeps (from_primaries m) = handle_message-Keeps m
  handle-Keeps (from_header_waiter h) = process_header-Keeps p k _ h
  handle-Keeps (from_certificate_waiter c) = process_certificate-Keeps p k c
  handle-Keeps (from_proposer h) = process_own_header-Keeps p k h

-- The round that is collected up to when consensus has reached `round`.
abbrev pub gc_of : Round → Round → Round
gc_of depth round = round - depth

-- The rounds of consensus that the task reads do not fall.
abbrev pub IsAscending : Round → List Input → Type 0
IsAscending c [] = Unit {0}
IsAscending c (i ∷ inputs) = (c ≤ i.round) × IsAscending i.round inputs

pub after-some :
    (res : DagResult Unit) (round : Round) (s t : Core)
    → after res round s ≡ some t
    → t ≡ cleanup round s
unfolding after
after-some (ok u) round s t e = ground arith
after-some (err store_error) round s t e = cc
after-some (err e') round s t e = ground arith
after-some panic round s t e = cc

module _ (p : Platform) (r : Round) (a : PublicKey) (d : Round) where
  cleanup-IsRecorded :
      (c round : Round) (s : Core)
      → c ≤ round
      → IsRecorded r a (gc_of d c) d s
      → IsRecorded r a (gc_of d round) d (cleanup round s)
  unfolding cleanup
  cleanup-IsRecorded c round s h i = elim (Bool-cases (ltb s.gc_depth round)) [
    | inl passed ↦ rw passed (record {
      collected = ground (arith, i.deep);
      deep = i.deep;
      once = λ g. ground (
        arith,
        i.once (omega arith),
        i.deep,
        lookup-retain (leb (round - s.gc_depth)) r s.last_voted,
      );
    })
    | inr early ↦ rw early (record {
      collected = ground (arith, i.collected, i.deep, early);
      deep = i.deep;
      once = λ g. i.once (ground (arith, i.deep, early));
    })
  ]

  step-IsRecorded :
      (c : Round) (i : Input) (s t : Core)
      → c ≤ i.round
      → step p i s ≡ some t
      → IsRecorded r a (gc_of d c) d s
      → IsRecorded r a (gc_of d i.round) d t
  unfolding step
  step-IsRecorded c i s t h e k =
      let s' : Core = record s { db = i.writes ++ s.db } in
      let start : IsRecorded r a (gc_of d c) d s' = record {
        collected = k.collected;
        deep = k.deep;
        once = k.once;
      } in
      let handled = (handle-Keeps p (kept p r a (gc_of d c) d) i.event).at s' start in
      rw (after-some (handle p i.event s').0 i.round (handle p i.event s').1 t e)
        (cleanup-IsRecorded c i.round (handle p i.event s').1 h handled)

  run-IsRecorded :
      (c : Round) (inputs : List Input) (s t : Core)
      → IsAscending c inputs
      → run p inputs s ≡ some t
      → IsRecorded r a (gc_of d c) d s
      → (round : Round) × IsRecorded r a (gc_of d round) d t
  unfolding run
  run-IsRecorded c [] s t h e k = (c, subst (IsRecorded r a (gc_of d c) d) (some-injective _ _ e) k)
  run-IsRecorded c (i ∷ inputs) s t h e k = elim (Option-cases (step p i s)) [
    | inl ended ↦ absurd (none-ne-some _ (rw (ended, run) at e))
    | inr (s', next) ↦
        run-IsRecorded i.round inputs s' t h.1 (rw (next, run) at e)
          (step-IsRecorded c i s s' h.0 next k)
  ]

spawn-IsRecorded :
    (p : Platform) (name : PublicKey) (c : Committee) (db : Puts) (service : SignatureService)
    (d r : Round) (a : PublicKey)
    → IsRecorded r a (gc_of d 0) d (spawn p name c db service d)
unfolding spawn votes_sent
spawn-IsRecorded p name c db service d r a = record {
  collected = omega arith;
  deep = refl;
  once = λ _. omega arith;
}

-- Along any inputs over which the round of consensus does not fall, and that do not end the task,
-- a primary sends to the others at most one vote for the headers of an author in a round that is
-- not yet collected.
pub run-single_vote :
    (p : Platform) (name : PublicKey) (c : Committee) (db : Puts) (service : SignatureService)
    (gc_depth : Round) (inputs : List Input) (t : Core) (r : Round) (a : PublicKey)
    → IsAscending 0 inputs
    → run p inputs (spawn p name c db service gc_depth) ≡ some t
    → t.gc_round ≤ r
    → votes_sent r a t.sent ≤ 1
run-single_vote p name c db service gc_depth inputs t r a h e g =
    let (round, k) =
      run-IsRecorded p r a gc_depth 0 inputs _ t h e
        (spawn-IsRecorded p name c db service gc_depth r a) in
    ground (arith, k.once (omega (arith, k.collected)))
