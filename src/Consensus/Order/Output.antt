-- ===== src/Consensus/Order/Output.antt =====
-- What `order_dag` returns: the order of the certificates, and which are left out.
use mathlib.Core.Option.{some-injective, none-ne-some}
use narwhal_td.Base.{
  ℕ, zero, suc, ◌+◌, ◌≡◌, refl, Bool, true, false, Option, none, some, List, [], ◌∷◌, arith, All,
  select, leb, add64, sub64, inl, ◌⊎◌,
}
use narwhal_td.Base.Map
use narwhal_td.Base.Map.{Map}
use narwhal_td.Base.Options.{>>=-eq-some}
use narwhal_td.Base.Sort.{IsSortedBy, All-sort_by_key, sort_by_key-IsSortedBy}
use narwhal_td.Crypto.{Digest}
use narwhal_td.Primary.Header.{Round}
use narwhal_td.Primary.Certificate
use narwhal_td.Primary.Certificate.{Certificate}
use narwhal_td.Consensus.State.{Authorities, State}
use narwhal_td.Consensus.Order.{
  find_digest, same_round, Visit, push_parent, push_parents, visit_dag, count, order_dag,
}

-- The leader itself, or a certificate that is not the last committed one of its origin.
abbrev pub IsFresh : State → Certificate → Certificate → Type 0
IsFresh s l x =
    (x ≡ l)
    ⊎ (same_round (Map.lookup (Certificate.origin x) s.last_committed) (Certificate.round x)
        ≡ false)

-- Within the rounds that are not garbage collected.
abbrev pub IsRecent : Round → State → Certificate → Type 0
IsRecent gc_depth s x = leb s.last_committed_round (add64 (Certificate.round x) gc_depth) ≡ true

push_parent-IsFresh :
    (s : State) (l : Certificate) (d : Digest) (o : Option Certificate) (v : Visit)
    → All (IsFresh s l) v.0
    → All (IsFresh s l) (push_parent s d o v).0
unfolding push_parent
push_parent-IsFresh s l d none v h = h
push_parent-IsFresh s l d (some c) (buffer, already) h = ground (arith, h)

push_parents-IsFresh :
    (s : State) (l : Certificate) (m : Authorities) (ds : List Digest) (v : Visit)
    → All (IsFresh s l) v.0
    → All (IsFresh s l) (push_parents s m ds v).0
unfolding push_parents
push_parents-IsFresh s l m [] v h = h
push_parents-IsFresh s l m (d ∷ ds) v h =
    push_parents-IsFresh s l m ds (push_parent s d (find_digest d m) v)
      (push_parent-IsFresh s l d (find_digest d m) v h)

visit_dag-IsFresh :
    (fuel : ℕ) (s : State) (l : Certificate) (v : Visit) (xs : List Certificate)
    → All (IsFresh s l) v.0
    → visit_dag fuel s v ≡ some xs
    → All (IsFresh s l) xs
unfolding visit_dag
visit_dag-IsFresh zero s l v xs h e = absurd (none-ne-some _ e)
visit_dag-IsFresh (suc fuel) s l ([], already) xs h e = rw (← some-injective _ _ e) tt
visit_dag-IsFresh (suc fuel) s l (x ∷ buffer, already) xs h e =
    let authorities = Map.or_default [] (Map.lookup (sub64 (Certificate.round x) 1) s.dag) in
    let visit = push_parents s authorities x.header.parents (buffer, already) in
    let (ys, visited, result) = >>=-eq-some (visit_dag fuel s visit) _ e in
    let pushed = push_parents-IsFresh s l authorities x.header.parents (buffer, already) h.1 in
    rw (← some-injective _ _ result) (h.0, visit_dag-IsFresh fuel s l visit ys pushed visited)

All-select :
    (P : Certificate → Type 0) (t : Certificate → Bool) (xs : List Certificate)
    → All P xs
    → All (λ x. (t x ≡ true) × P x) (select t xs)
unfolding select
All-select P t [] h = tt
All-select P t (x ∷ xs) h = ground (arith, h, All-select P t xs h.1)

-- The certificates that `order_dag` returns are in ascending order of round. Each is within the gc
-- depth of the last committed round, and is the leader or not the last committed certificate of its origin.
pub order_dag-sorted :
    (gc_depth : Round) (l : Certificate) (s : State) (xs : List Certificate)
    → order_dag gc_depth l s ≡ some xs
    → IsSortedBy Certificate.round xs × All (λ x. IsRecent gc_depth s x × IsFresh s l x) xs
unfolding order_dag
order_dag-sorted gc_depth l s xs e =
    let (ys, visited, result) = >>=-eq-some (visit_dag (count s.dag + 2) s (l ∷ [], [])) _ e in
    let recent =
      λ (x : Certificate). leb s.last_committed_round (add64 (Certificate.round x) gc_depth) in
    let fresh = visit_dag-IsFresh (count s.dag + 2) s l (l ∷ [], []) ys (inl refl, tt) visited in
    rw (← some-injective _ _ result) (
      sort_by_key-IsSortedBy Certificate.round (select recent ys),
      All-sort_by_key (λ x. IsRecent gc_depth s x × IsFresh s l x) Certificate.round
          (select recent ys) (All-select (IsFresh s l) recent ys fresh),
    )
