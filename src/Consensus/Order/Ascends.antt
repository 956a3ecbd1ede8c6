-- ===== src/Consensus/Order/Ascends.antt =====
-- The rounds that `order_dag` returns for each origin, against those committed before.
use mathlib.Core.Option.{some-injective, none-ne-some}
use narwhal_td.Base.{
  ℕ, zero, suc, ◌+◌, ◌≤◌, ◌<◌, ◌≡◌, refl, Bool, true, ◌||◌, Option, none, some, List, [], ◌∷◌, ◌++◌,
  All, arith, add64, sub64, leb, ◌==◌, select, Bool-cases, inl, inr,
}
use narwhal_td.Base.Map
use narwhal_td.Base.Map.{Map, lookup-insert}
use narwhal_td.Base.Set
use narwhal_td.Base.Options.{>>=-eq-some}
use narwhal_td.Base.Sort.{IsSortedBy, All-sort_by_key, sort_by_key-IsSortedBy}
use narwhal_td.Crypto.{Digest, PublicKey}
use narwhal_td.Primary.Header.{Round}
use narwhal_td.Primary.Certificate
use narwhal_td.Primary.Certificate.{Certificate}
use narwhal_td.Consensus.State.{State, raise, max}
use narwhal_td.Consensus.State.Rounds.{lookup-raise}
use mathlib.Core.Option
use narwhal_td.Consensus.State.Filed.{IsFiled}
use narwhal_td.Consensus.Order.Occurrences.{occurrences}
use narwhal_td.Consensus.Order.Held.{
  authorities, IsLater, IsNew, recent-IsLater, or-false, found_parent,
}
use narwhal_td.Consensus.Order.Once.{visit_dag-IsBelow, order_dag-visit, order_dag-once}
use narwhal_td.Consensus.Order.{
  find_digest, same_round, Visit, push_parent, push_parents, visit_dag, count, order_dag,
}

-- The certificates, committed in this order, have for each origin rounds that rise, from the last
-- committed ones on.
unfoldable pub Ascends : Map Round → List Certificate → Type 0
Ascends m [] = Unit {0}
Ascends m (x ∷ xs) =
    IsLater (Map.lookup (Certificate.origin x) m) (Certificate.round x) × Ascends (raise x m) xs

-- The last committed rounds after these certificates.
unfoldable pub raise_all : Map Round → List Certificate → Map Round
raise_all m [] = m
raise_all m (x ∷ xs) = raise_all (raise x m) xs

pub Ascends-append :
    (m : Map Round) (xs ys : List Certificate)
    → Ascends m xs
    → Ascends (raise_all m xs) ys
    → Ascends m (xs ++ ys)
unfolding Ascends raise_all
Ascends-append m [] ys h k = k
Ascends-append m (x ∷ xs) ys h k = (h.0, Ascends-append (raise x m) xs ys h.1 k)

-- Another origin, or a later round.
abbrev Passes : Certificate → Certificate → Type 0
Passes x y =
    (Certificate.origin x == Certificate.origin y) ≡ true
    → Certificate.round x < Certificate.round y

max-IsLater :
    (o : Option Round) (x y : Round)
    → IsLater o y
    → x < y
    → IsLater (some (Map.or_default x (Option.map (λ r. max r x) o))) y
max-IsLater none x y h k = k
max-IsLater (some r) x y h k = ground (arith, h, k)

raise-IsLater :
    (m : Map Round) (x y : Certificate)
    → IsLater (Map.lookup (Certificate.origin y) m) (Certificate.round y)
    → Passes x y
    → IsLater (Map.lookup (Certificate.origin y) (raise x m)) (Certificate.round y)
raise-IsLater m x y h k = elim (Bool-cases (Certificate.origin x == Certificate.origin y)) [
  | inl same ↦
      let moved = lookup-raise x m (Certificate.origin y) in
      rw moved (rw same (max-IsLater (Map.lookup (Certificate.origin y) m) _ _ h (k same)))
  | inr other ↦ let kept = lookup-raise x m (Certificate.origin y) in rw kept (rw other h)
]

sorted-Passes :
    (x : Certificate) (xs : List Certificate)
    → All (λ y. Certificate.round x ≤ Certificate.round y) xs
    → occurrences (Certificate.round x) (Certificate.origin x) xs ≡ 0
    → All (Passes x) xs
unfolding occurrences
sorted-Passes x [] h k = tt
sorted-Passes x (y ∷ xs) h k = (ground (arith, h.0, k), sorted-Passes x xs h.1 (omega (arith, k)))

All-raise :
    (m : Map Round) (x : Certificate) (xs : List Certificate)
    → All (λ y. IsLater (Map.lookup (Certificate.origin y) m) (Certificate.round y)) xs
    → All (Passes x) xs
    → All (λ y. IsLater (Map.lookup (Certificate.origin y) (raise x m)) (Certificate.round y)) xs
All-raise m x [] h k = tt
All-raise m x (y ∷ xs) h k = (raise-IsLater m x y h.0 k.0, All-raise m x xs h.1 k.1)

sorted-Ascends :
    (m : Map Round) (xs : List Certificate)
    → IsSortedBy Certificate.round xs
    → ((r : Round) (n : PublicKey) → occurrences r n xs ≤ 1)
    → All (λ y. IsLater (Map.lookup (Certificate.origin y) m) (Certificate.round y)) xs
    → Ascends m xs
unfolding Ascends occurrences
sorted-Ascends m [] s once h = tt
sorted-Ascends m (x ∷ xs) s once h =
    let head = once (Certificate.round x) (Certificate.origin x) in
    let none_after : occurrences (Certificate.round x) (Certificate.origin x) xs ≡ 0 =
      ground (arith, head) in
    let rest : (r : Round) (n : PublicKey) → occurrences r n xs ≤ 1 =
      λ r n. let whole = once r n in omega (arith, whole) in
    (
      h.0,
      sorted-Ascends (raise x m) xs s.1 rest
          (All-raise m x xs h.1 (sorted-Passes x xs s.0 none_after)),
    )

All-chosen :
    (P : Certificate → Type 0) (t : Certificate → Bool) (xs : List Certificate)
    → All P xs
    → All P (select t xs)
unfolding select
All-chosen P t [] h = tt
All-chosen P t (x ∷ xs) h = ground (arith, h, All-chosen P t xs h.1)

module _ (s : State) (f : IsFiled s) where
  push_parent-IsNew :
      (q : Round) (d : Digest) (o : Option Certificate) (v : Visit)
      → find_digest d (authorities s q) ≡ o
      → All (IsNew s) v.0
      → All (IsNew s) (push_parent s d o v).0
  unfolding push_parent
  push_parent-IsNew q d none v e h = h
  push_parent-IsNew q d (some c) (buffer, already) e h =
      let (held, round, fits) = found_parent s f q d c e in
      let recent = f.recent q (Certificate.origin c) d c held in
      elim (Bool-cases (
        Set.contains d already
        || same_round (Map.lookup (Certificate.origin c) s.last_committed) (Certificate.round c))) [
          | inl skip ↦ rw skip h
          | inr pushed ↦ rw pushed (recent-IsLater _ _ (rw round recent) (or-false _ _ pushed).1, h)
        ]

  push_parents-IsNew :
      (q : Round) (ds : List Digest) (v : Visit)
      → All (IsNew s) v.0
      → All (IsNew s) (push_parents s (authorities s q) ds v).0
  unfolding push_parents
  push_parents-IsNew q [] v h = h
  push_parents-IsNew q (d ∷ ds) v h =
      let o = find_digest d (authorities s q) in
      push_parents-IsNew q ds (push_parent s d o v) (push_parent-IsNew q d o v refl h)

  visit_dag-IsNew :
      (fuel : ℕ) (v : Visit) (xs : List Certificate)
      → All (IsNew s) v.0
      → visit_dag fuel s v ≡ some xs
      → All (IsNew s) xs
  unfolding visit_dag
  visit_dag-IsNew zero v xs h e = absurd (none-ne-some _ e)
  visit_dag-IsNew (suc fuel) ([], already) xs h e = rw (← some-injective _ _ e) tt
  visit_dag-IsNew (suc fuel) (x ∷ buffer, already) xs h e =
      let q = sub64 (Certificate.round x) 1 in
      let visit = push_parents s (authorities s q) x.header.parents (buffer, already) in
      let (ys, visited, result) = >>=-eq-some (visit_dag fuel s visit) _ e in
      let pushed = push_parents-IsNew q x.header.parents (buffer, already) h.1 in
      rw (← some-injective _ _ result) (h.0, visit_dag-IsNew fuel visit ys pushed visited)

  pub order_dag-Ascends :
      (gc_depth : Round) (l : Certificate) (xs : List Certificate)
      → IsNew s l
      → order_dag gc_depth l s ≡ some xs
      → Ascends s.last_committed xs
  order_dag-Ascends gc_depth l xs new e =
      let (ys, visited, result) = order_dag-visit s f gc_depth l xs e in
      let recent =
        λ (x : Certificate). leb s.last_committed_round (add64 (Certificate.round x) gc_depth) in
      let fresh = visit_dag-IsNew (count s.dag + 2) (l ∷ [], []) ys (new, tt) visited in
      sorted-Ascends s.last_committed xs
        (rw result (sort_by_key-IsSortedBy Certificate.round (select recent ys)))
        (λ r n. order_dag-once s f gc_depth l xs r n e)
        (rw result (
          All-sort_by_key (IsNew s) Certificate.round (select recent ys)
            (All-chosen (IsNew s) recent ys fresh)))

  -- No certificate that `order_dag` returns is of a round after the leader's.
  pub order_dag-IsBelow :
      (gc_depth : Round) (l : Certificate) (xs : List Certificate)
      → order_dag gc_depth l s ≡ some xs
      → All (λ x. Certificate.round x ≤ Certificate.round l) xs
  order_dag-IsBelow gc_depth l xs e =
      let (ys, visited, result) = order_dag-visit s f gc_depth l xs e in
      let recent =
        λ (x : Certificate). leb s.last_committed_round (add64 (Certificate.round x) gc_depth) in
      let (below, same) =
        visit_dag-IsBelow s f (count s.dag + 2) (Certificate.round l) (Certificate.round l)
          (Certificate.origin l) (l ∷ [], []) ys (omega arith) (omega arith, tt) visited in
      rw result (
        All-sort_by_key (λ x. Certificate.round x ≤ Certificate.round l) Certificate.round
          (select recent ys)
          (All-chosen (λ x. Certificate.round x ≤ Certificate.round l) recent ys below))
