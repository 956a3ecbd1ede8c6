-- ===== src/Consensus/Run/Heads.antt =====
-- The leaders that `run` of consensus/src/lib.rs orders are among the certificates that it commits.
use mathlib.Core.Option.{some-injective, none-ne-some}
use mathlib.Core.List.{reverse-append}
use narwhal_td.Base.{
  ℕ, zero, suc, ◌+◌, ◌^◌, ◌<◌, ◌≡◌, refl, sym, subst, ap, some, List, [], ◌∷◌, ◌++◌, arith, reverse,
  select, leb, add64, add64-eq-add, Bool-cases, Option-cases, inl, inr,
}
use narwhal_td.Base.Members.{IsIn, IsIn-left, IsIn-right, IsIn-select, IsIn-sort_by_key}
use narwhal_td.Base.Options.{>>=-eq-some}
use narwhal_td.Config.{Committee}
use narwhal_td.Primary.Header.{Round}
use narwhal_td.Primary.Certificate
use narwhal_td.Primary.Certificate.{Certificate}
use narwhal_td.Consensus.State.{Dag, State}
use narwhal_td.Consensus.State.Clean.{IsWell}
use narwhal_td.Consensus.State.Filed.{IsFiled}
use narwhal_td.Consensus.Leader.{leader}
use narwhal_td.Consensus.Linked.{linked}
use narwhal_td.Consensus.Order.{Visit, visit_dag, count, order_dag, past_leaders, order_leaders}
use narwhal_td.Consensus.Order.Leaders.{Rises, Rises-weaken, order_leaders-Rises}
use narwhal_td.Consensus.Run.{Consensus, commit_leaders, commit, update_all}
use narwhal_td.Consensus.Run.Filed.{update_all-bound}
use narwhal_td.Consensus.Run.Commits.{leader-Commits}
use narwhal_td.Consensus.Order.Ascends.{order_dag-IsBelow}

visit_dag-first :
    (fuel : ℕ) (s : State) (v : Visit) (x : Certificate) (buffer ys : List Certificate)
    → v.0 ≡ x ∷ buffer
    → visit_dag fuel s v ≡ some ys
    → IsIn x ys
unfolding visit_dag
visit_dag-first zero s v x buffer ys h e = absurd (none-ne-some _ e)
visit_dag-first (suc fuel) s ([], already) x buffer ys h e = cc
visit_dag-first (suc fuel) s (y ∷ rest, already) x buffer ys h e =
    let (zs, visited, result) = >>=-eq-some (visit_dag fuel s _) _ e in
    let same : x ≡ y = ground (arith, h) in subst (IsIn x) (some-injective _ _ result) (inl same)

-- The leader is among what it orders, if its round is after the last committed one.
order_dag-first :
    (gc_depth : Round) (l : Certificate) (s : State) (xs : List Certificate)
    → s.last_committed_round < Certificate.round l
    → Certificate.round l + gc_depth < 2 ^ 64
    → order_dag gc_depth l s ≡ some xs
    → IsIn l xs
unfolding order_dag
order_dag-first gc_depth l s xs later fits e =
    let (ys, visited, result) = >>=-eq-some (visit_dag (count s.dag + 2) s (l ∷ [], [])) _ e in
    let recent =
      λ (x : Certificate). leb s.last_committed_round (add64 (Certificate.round x) gc_depth) in
    let found = visit_dag-first (count s.dag + 2) s (l ∷ [], []) l [] ys refl visited in
    subst (IsIn l) (some-injective _ _ result) (
      (IsIn-sort_by_key Certificate.round l (select recent ys)).1 (
        (IsIn-select recent l ys).1
          (found, ground (arith, later, add64-eq-add (Certificate.round l) gc_depth fits))))

past_leaders-IsIn :
    (c : Committee) (dag : Dag) (rs : List Round) (l current : Certificate)
    (to_commit xs : List Certificate)
    → IsIn l to_commit
    → past_leaders c dag rs current to_commit ≡ some xs
    → IsIn l xs
unfolding past_leaders
past_leaders-IsIn c dag [] l current to_commit xs m e = subst (IsIn l) (some-injective _ _ e) m
past_leaders-IsIn c dag (r ∷ rs) l current to_commit xs m e =
    let (found, elected, rest) = >>=-eq-some (leader c r dag) _ e in
    elim (Option-cases found) [
      | inl missing ↦ past_leaders-IsIn c dag rs l current to_commit xs m (rw missing at rest)
      | inr ((d, previous), held) ↦
          let (reached, path, next) =
            >>=-eq-some (linked current previous dag) _ (rw held at rest) in
          elim (Bool-cases reached) [
            | inl is_linked ↦
                past_leaders-IsIn c dag rs l previous (to_commit ++ previous ∷ []) xs
                  (IsIn-left l to_commit (previous ∷ []) m) (rw is_linked at next)
            | inr not_linked ↦
                past_leaders-IsIn c dag rs l current to_commit xs m (rw not_linked at next)
          ]
    ]

IsIn-reverse : (l : Certificate) (xs : List Certificate) → IsIn l xs → IsIn l (reverse xs)
IsIn-reverse l [] m = m
IsIn-reverse l (x ∷ xs) (inl same) =
    rw (reverse-append (x ∷ []) xs) (IsIn-right l (reverse xs) (x ∷ []) (inl same))
IsIn-reverse l (x ∷ xs) (inr later) =
    rw (reverse-append (x ∷ []) xs) (IsIn-left l (reverse xs) (x ∷ []) (IsIn-reverse l xs later))

-- What is in the sequence stays there.
commit_leaders-IsIn :
    (gc_depth : Round) (leaders : List Certificate) (x : Certificate) (s t : State)
    (sequence out : List Certificate)
    → IsIn x sequence
    → commit_leaders gc_depth leaders s sequence ≡ some (t, out)
    → IsIn x out
unfolding commit_leaders
commit_leaders-IsIn gc_depth [] x s t sequence out m e =
    subst (IsIn x) (ap (λ (u : State × List Certificate). u.1) (some-injective _ _ e)) m
commit_leaders-IsIn gc_depth (l ∷ leaders) x s t sequence out m e =
    let (xs, ordered, rest) = >>=-eq-some (order_dag gc_depth l s) _ e in
    commit_leaders-IsIn gc_depth leaders x _ t (sequence ++ xs) out (IsIn-left x sequence xs m) rest

commit_leaders-all :
    (gc_depth : Round) (leaders : List Certificate) (l : Certificate) (s t : State)
    (sequence out : List Certificate)
    → IsWell s
    → IsFiled s
    → Rises (s.last_committed_round + 1) leaders
    → Certificate.round l + gc_depth < 2 ^ 64
    → IsIn l leaders
    → commit_leaders gc_depth leaders s sequence ≡ some (t, out)
    → IsIn l out
unfolding commit_leaders Rises
commit_leaders-all gc_depth [] l s t sequence out w f rises fits m e = absurd m
commit_leaders-all gc_depth (x ∷ leaders) l s t sequence out w f rises fits (inl same) e =
    let (xs, ordered, rest) = >>=-eq-some (order_dag gc_depth x s) _ e in
    let first =
      order_dag-first gc_depth x s xs (omega (arith, rises.0))
        (omega (arith, fits, ap Certificate.round same)) ordered in
    commit_leaders-IsIn gc_depth leaders l _ t (sequence ++ xs) out
      (IsIn-right l sequence xs (subst (λ y. IsIn y xs) (sym same) first)) rest
commit_leaders-all gc_depth (x ∷ leaders) l s t sequence out w f rises fits (inr other) e =
    let (xs, ordered, rest) = >>=-eq-some (order_dag gc_depth x s) _ e in
    let later : s.last_committed_round < Certificate.round x = omega (arith, rises.0) in
    let first = leader-Commits gc_depth s x xs w f later ordered in
    let bound =
      update_all-bound gc_depth (Certificate.round x) s xs w (omega (arith, later))
        (order_dag-IsBelow s f gc_depth x xs ordered) in
    commit_leaders-all gc_depth leaders l (update_all gc_depth s xs) t (sequence ++ xs) out
      first.well first.filed
      (Rises-weaken _ (Certificate.round x + 1) leaders (omega (arith, bound)) rises.1) fits other
      rest

-- Committing a leader commits its own certificate.
pub commit-IsIn :
    (k : Consensus) (l : Certificate) (s t : State) (xs : List Certificate)
    → IsWell s
    → IsFiled s
    → s.last_committed_round + 2 < 2 ^ 64
    → s.last_committed_round < Certificate.round l
    → Certificate.round l + k.gc_depth < 2 ^ 64
    → commit k l s ≡ some (t, xs)
    → IsIn l xs
unfolding commit order_leaders
commit-IsIn k l s t xs w f fits later depth e =
    let (leaders, ordered, rest) = >>=-eq-some (order_leaders k.committee l s) _ e in
    let held = past_leaders-IsIn k.committee s.dag _ l l (l ∷ []) leaders (inl refl) ordered in
    commit_leaders-all k.gc_depth (reverse leaders) l s t [] xs w f
      (order_leaders-Rises s k.committee l leaders f fits later ordered) depth
      (IsIn-reverse l leaders held) rest
