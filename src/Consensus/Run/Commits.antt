-- ===== src/Consensus/Run/Commits.antt =====
-- What one step of `run` in consensus/src/lib.rs commits, in a filed state.
use mathlib.Core.Option.{some-injective}
use mathlib.Core.List.{append_assoc, append-nil}
use narwhal_td.Base.{
  ◌+◌, ◌-◌, ◌%◌, ◌^◌, ◌<◌, ◌≡◌, refl, sym, ap, subst, ◌∙◌, true, not, ◌||◌, Option, some, List, [],
  ◌∷◌, ◌++◌, arith, sub64, sub64-fits, reverse, leb, ltb, ◌==◌, Bool-cases, Option-cases, inl, inr,
}
use narwhal_td.Base.Map
use narwhal_td.Base.Map.{Map}
use narwhal_td.Base.Options.{>>=-eq-some}
use narwhal_td.Crypto.{PublicKey, Primitives}
use narwhal_td.Config.{validity_threshold}
use narwhal_td.Primary.Header.{Round}
use narwhal_td.Primary.Certificate
use narwhal_td.Primary.Certificate.{Certificate}
use narwhal_td.Consensus.State.{State, max_value, raise}
use narwhal_td.Consensus.State.Clean.{IsWell}
use narwhal_td.Consensus.State.Filed.{IsFiled}
use narwhal_td.Consensus.Leader.{leader}
use narwhal_td.Consensus.Order.{order_leaders, order_dag}
use narwhal_td.Consensus.Order.Held.{IsLater, IsNew}
use narwhal_td.Consensus.Order.Ascends.{
  Ascends, Ascends-append, raise_all, order_dag-Ascends, order_dag-IsBelow,
}
use narwhal_td.Consensus.Order.Leaders.{Rises, Rises-weaken, leader-round, order_leaders-Rises}
use narwhal_td.Consensus.Run.{
  Consensus, add_certificate, support, update_all, commit_leaders, commit, try_commit, elect_leader,
  process,
}
use narwhal_td.Consensus.Run.Filed.{
  is_timely, add_certificate-IsWell, add_certificate-IsFiled, update_all-IsWell, update_all-IsFiled,
  update_all-raise_all, update_all-bound,
}

-- From the one state to the other the certificates are committed, with rising rounds for each origin.
pub record Commits (s : State) (t : State) (xs : List Certificate) : Type 0 where
  pub ascends : Ascends s.last_committed xs
  pub raised : t.last_committed ≡ raise_all s.last_committed xs
  pub well : IsWell t
  pub filed : IsFiled t

lookup-max_value :
    (m : Map Round) (n : PublicKey) (r : Round) → max_value m < r → IsLater (Map.lookup n m) r
unfolding max_value Map.lookup
lookup-max_value [] n r h = tt
lookup-max_value ((k, q) ∷ m) n r h = ground (arith, h, lookup-max_value m n r)

-- A certificate of a round after the last committed one is new.
above-IsNew :
    (s : State) (c : Certificate)
    → IsWell s
    → s.last_committed_round < Certificate.round c
    → IsNew s c
above-IsNew s c w h =
    lookup-max_value s.last_committed (Certificate.origin c) (Certificate.round c)
      (omega (arith, w.highest, h))

abbrev pub returns : State → List Certificate → Option (State × List Certificate)
returns s xs = some (s, xs)

pub same_parts :
    (s t : State) (xs ys : List Certificate) → returns s xs ≡ returns t ys → (s ≡ t) × (xs ≡ ys)
same_parts s t xs ys e =
    let same = some-injective _ _ e in
    (
      ap (λ (u : State × List Certificate). u.0) same,
      ap (λ (u : State × List Certificate). u.1) same,
    )

nothing-Commits : (s : State) → IsWell s → IsFiled s → Commits s s []
unfolding Ascends raise_all
nothing-Commits s w f = record { ascends = tt; raised = refl; well = w; filed = f }

raise_all-append :
    (m : Map Round) (xs ys : List Certificate)
    → raise_all m (xs ++ ys) ≡ raise_all (raise_all m xs) ys
unfolding raise_all
raise_all-append m [] ys = refl
raise_all-append m (x ∷ xs) ys = raise_all-append (raise x m) xs ys

pub Commits-append :
    (s t u : State) (xs ys : List Certificate)
    → Commits s t xs
    → Commits t u ys
    → Commits s u (xs ++ ys)
Commits-append s t u xs ys h k = record {
  ascends =
      Ascends-append s.last_committed xs ys h.ascends
        (subst (λ (m : Map Round). Ascends m ys) h.raised k.ascends);
  raised =
      k.raised
      ∙ (ap (λ (m : Map Round). raise_all m ys) h.raised
          ∙ sym (raise_all-append s.last_committed xs ys));
  well = k.well;
  filed = k.filed;
}

pub leader-Commits :
    (gc_depth : Round) (s : State) (l : Certificate) (xs : List Certificate)
    → IsWell s
    → IsFiled s
    → s.last_committed_round < Certificate.round l
    → order_dag gc_depth l s ≡ some xs
    → Commits s (update_all gc_depth s xs) xs
leader-Commits gc_depth s l xs w f later e = record {
  ascends = order_dag-Ascends s f gc_depth l xs (above-IsNew s l w later) e;
  raised = update_all-raise_all gc_depth s xs;
  well = update_all-IsWell gc_depth s xs w;
  filed = update_all-IsFiled gc_depth s xs w f;
}

commit_leaders-Commits :
    (gc_depth : Round) (leaders : List Certificate) (s t : State) (sequence out : List Certificate)
    → IsWell s
    → IsFiled s
    → Rises (s.last_committed_round + 1) leaders
    → commit_leaders gc_depth leaders s sequence ≡ some (t, out)
    → (xs : List Certificate) × (out ≡ sequence ++ xs) × Commits s t xs
unfolding commit_leaders Rises
commit_leaders-Commits gc_depth [] s t sequence out w f rises e =
    let (state, output) = same_parts s t sequence out e in
    (
      [],
      sym output ∙ sym (append-nil sequence),
      subst (λ (u : State). Commits s u []) state (nothing-Commits s w f),
    )
commit_leaders-Commits gc_depth (l ∷ leaders) s t sequence out w f rises e =
    let (xs, ordered, rest) = >>=-eq-some (order_dag gc_depth l s) _ e in
    let later : s.last_committed_round < Certificate.round l = omega (arith, rises.0) in
    let first = leader-Commits gc_depth s l xs w f later ordered in
    let bound =
      update_all-bound gc_depth (Certificate.round l) s xs w (omega (arith, later))
        (order_dag-IsBelow s f gc_depth l xs ordered) in
    let (ys, result, second) =
      commit_leaders-Commits gc_depth leaders (update_all gc_depth s xs) t (sequence ++ xs) out
        first.well first.filed
        (Rises-weaken _ (Certificate.round l + 1) leaders (omega (arith, bound)) rises.1) rest in
    (xs ++ ys, result ∙ append_assoc sequence xs ys, Commits-append s _ t xs ys first second)

commit-Commits :
    (k : Consensus) (l : Certificate) (s t : State) (xs : List Certificate)
    → IsWell s
    → IsFiled s
    → s.last_committed_round + 2 < 2 ^ 64
    → s.last_committed_round < Certificate.round l
    → commit k l s ≡ some (t, xs)
    → Commits s t xs
unfolding commit
commit-Commits k l s t xs w f fits later e =
    let (leaders, ordered, rest) = >>=-eq-some (order_leaders k.committee l s) _ e in
    let rises = order_leaders-Rises s k.committee l leaders f fits later ordered in
    let (ys, result, commits) =
      commit_leaders-Commits k.gc_depth (reverse leaders) s t [] xs w f rises rest in
    subst (λ (zs : List Certificate). Commits s t zs) (sym result) commits

pub skipped-Commits :
    (s t : State) (xs : List Certificate)
    → IsWell s
    → IsFiled s
    → returns s [] ≡ returns t xs
    → Commits s t xs
skipped-Commits s t xs w f e =
    let (state, output) = same_parts s t [] xs e in
    subst (λ (ys : List Certificate). Commits s t ys) output
      (subst (λ (u : State). Commits s u []) state (nothing-Commits s w f))

elect_leader-Commits :
    (k : Consensus) (r : Round) (s t : State) (xs : List Certificate)
    → IsWell s
    → IsFiled s
    → r < 2 ^ 64
    → s.last_committed_round < r - 2
    → elect_leader k r s ≡ some (t, xs)
    → Commits s t xs
unfolding elect_leader try_commit
elect_leader-Commits k r s t xs w f fits later e =
    let (found, elected, rest) = >>=-eq-some (leader k.committee (r - 2) s.dag) _ e in
    elim (Option-cases found) [
      | inl missing ↦ skipped-Commits s t xs w f (rw missing at rest)
      | inr ((digest, l), held) ↦
          let (children, known, next) =
            >>=-eq-some (Map.lookup (r - 1) s.dag) _ (rw held at rest) in
          elim (Bool-cases
            (ltb (support k.committee digest children) (validity_threshold k.committee))) [
              | inl low ↦ skipped-Commits s t xs w f (rw low at next)
              | inr enough ↦
                  let round = leader-round s k.committee (r - 2) digest l f (rw held at elected) in
                  commit-Commits k l s t xs w f (omega (arith, fits, later))
                    (omega (arith, round, later)) (rw enough at next)
            ]
    ]

pub process-Commits :
    (p : Primitives) (k : Consensus) (c : Certificate) (s t : State) (xs : List Certificate)
    → IsWell s
    → IsFiled s
    → is_timely s c ≡ true
    → process p k c s ≡ some (t, xs)
    → Commits s t xs
unfolding process add_certificate
process-Commits p k c s t xs w f timely e =
    let s' = add_certificate p c s in
    let r = sub64 (Certificate.round c) 1 in
    let w' = add_certificate-IsWell p c s w in
    let f' = add_certificate-IsFiled p c s timely f in
    let from_added : Commits s' t xs = elim (Bool-cases (not (r % 2 == 0) || ltb r 4)) [
      | inl skipped ↦ skipped-Commits s' t xs w' f' (rw skipped at e)
      | inr kept ↦ elim (Bool-cases (leb (r - 2) s'.last_committed_round)) [
        | inl done ↦ skipped-Commits s' t xs w' f' (rw done at (rw kept at e))
        | inr ahead ↦
            elect_leader-Commits k r s' t xs w' f' (sub64-fits (Certificate.round c) 1)
              (ground (arith, ahead)) (rw ahead at (rw kept at e))
      ]
    ] in
    record {
      ascends = from_added.ascends;
      raised = from_added.raised;
      well = from_added.well;
      filed = from_added.filed;
    }
