-- ===== src/Consensus/Order/Once.antt =====
-- How often the loop of `order_dag` puts a certificate of a filed DAG on the stack.
use mathlib.Core.Option.{some-injective, none-ne-some}
use narwhal_td.Base.{
  ℕ, zero, suc, ◌+◌, ◌^◌, ◌≤◌, ◌<◌, ◌≡◌, refl, sym, subst, ◌∙◌, true, false, ◌&&◌, ◌||◌, Option,
  none, some, List, [], ◌∷◌, All, arith, add64, sub64, leb, ◌==◌, select, Bool-cases, inl, inr,
}
use narwhal_td.Base.Map
use narwhal_td.Base.Map.{Map}
use narwhal_td.Base.Set
use narwhal_td.Base.Set.{Distinct}
use narwhal_td.Base.Options.{>>=-eq-some}
use narwhal_td.Crypto.{Digest, PublicKey}
use narwhal_td.Primary.Header.{Round}
use narwhal_td.Primary.Certificate
use narwhal_td.Primary.Certificate.{Certificate}
use narwhal_td.Consensus.State.{State}
use narwhal_td.Consensus.State.Clean.{entry}
use narwhal_td.Consensus.State.Filed.{IsFiled}
use narwhal_td.Base.Sort.{sort_by_key}
use narwhal_td.Consensus.Order.Occurrences.{
  occurrences, not_counted, sort-occurrences, select-occurrences, singleton-occurrences,
}
use narwhal_td.Consensus.Order.Held.{room_for, room, authorities, or-false, found_parent}
use narwhal_td.Consensus.Order.{
  find_digest, same_round, Visit, push_parent, push_parents, visit_dag, count, order_dag,
}

room_for-cons :
    (o : Option (Digest × Certificate)) (d : Digest) (already : List Digest)
    → room_for o (d ∷ already) ≤ room_for o already
unfolding Set.contains
room_for-cons none d already = omega arith
room_for-cons (some (x, c)) d already = ground arith

room_for-fresh :
    (d : Digest) (c : Certificate) (already : List Digest)
    → Set.contains d already ≡ false
    → room_for (some (d, c)) already ≡ room_for (some (d, c)) (d ∷ already) + 1
unfolding Set.contains
room_for-fresh d c already fresh = ground arith

pub same-round_origin :
    (r x : Round) (n y : PublicKey) → (x == r && y == n) ≡ true → (x ≡ r) × (y ≡ n)
same-round_origin r x n y h = (ground arith, ground arith)

sub64-below : (x : ℕ) → sub64 x 1 + 1 < 2 ^ 64 → sub64 x 1 < x
unfolding sub64
sub64-below x h = omega (arith, h)

-- No certificate of the list is of a round after the bound.
abbrev pub IsBelow : Round → List Certificate → Type 0
IsBelow b xs = All (λ x. Certificate.round x ≤ b) xs

empty-room : (o : Option (Digest × Certificate)) → room_for o [] ≤ 1
unfolding Set.contains
empty-room none = omega arith
empty-room (some (d, c)) = omega arith

module _ (s : State) (f : IsFiled s) where
  push_fresh-occurrences :
      (r : Round) (n : PublicKey) (d : Digest) (c : Certificate) (buffer : List Certificate)
      (already : List Digest)
      → Set.contains d already ≡ false
      → entry (Certificate.round c) (Certificate.origin c) s.dag ≡ some (d, c)
      → occurrences r n (c ∷ buffer) + room s r n (d ∷ already)
        ≤ occurrences r n buffer + room s r n already
  unfolding occurrences
  push_fresh-occurrences r n d c buffer already fresh held =
      elim (Bool-cases (Certificate.round c == r && Certificate.origin c == n)) [
        | inl here ↦
            let (x, y) = same-round_origin r (Certificate.round c) n (Certificate.origin c) here in
            let at_place =
              subst (λ (k : ℕ). entry k n s.dag ≡ some (d, c)) x
                (subst (λ (k : PublicKey). entry (Certificate.round c) k s.dag ≡ some (d, c)) y
                  held) in
            rw here (rw at_place (grind (arith, room_for-fresh d c already fresh)))
        | inr other ↦ rw other (grind (arith, room_for-cons (entry r n s.dag) d already))
      ]

  push_parent-occurrences :
      (q r : Round) (n : PublicKey) (d : Digest) (o : Option Certificate) (v : Visit)
      → find_digest d (authorities s q) ≡ o
      → let w = push_parent s d o v in
        occurrences r n w.0 + room s r n w.1 ≤ occurrences r n v.0 + room s r n v.1
  unfolding push_parent
  push_parent-occurrences q r n d none v e = omega arith
  push_parent-occurrences q r n d (some c) (buffer, already) e =
      let (held, round, fits) = found_parent s f q d c e in
      elim (Bool-cases (
        Set.contains d already
        || same_round (Map.lookup (Certificate.origin c) s.last_committed) (Certificate.round c))) [
          | inl skip ↦ rw skip (omega arith)
          | inr pushed ↦ rw pushed (
              push_fresh-occurrences r n d c buffer already (or-false _ _ pushed).0 (
                subst (λ (k : ℕ). entry k (Certificate.origin c) s.dag ≡ some (d, c)) (sym round)
                  held))
        ]

  push_parents-occurrences :
      (q r : Round) (n : PublicKey) (ds : List Digest) (v : Visit)
      → let w = push_parents s (authorities s q) ds v in
        occurrences r n w.0 + room s r n w.1 ≤ occurrences r n v.0 + room s r n v.1
  unfolding push_parents
  push_parents-occurrences q r n [] v = omega arith
  push_parents-occurrences q r n (d ∷ ds) v =
      let o = find_digest d (authorities s q) in
      let now = push_parent-occurrences q r n d o v refl in
      let after = push_parents-occurrences q r n ds (push_parent s d o v) in
      omega (arith, now, after)

  -- Each certificate comes out of the loop at most as often as it lies on the stack, and once more if
  -- it may still be put there.
  visit_dag-occurrences :
      (fuel : ℕ) (r : Round) (n : PublicKey) (v : Visit) (xs : List Certificate)
      → visit_dag fuel s v ≡ some xs
      → occurrences r n xs ≤ occurrences r n v.0 + room s r n v.1
  unfolding visit_dag occurrences
  visit_dag-occurrences zero r n v xs e = absurd (none-ne-some _ e)
  visit_dag-occurrences (suc fuel) r n ([], already) xs e =
      rw (← some-injective _ _ e) (omega arith)
  visit_dag-occurrences (suc fuel) r n (x ∷ buffer, already) xs e =
      let q = sub64 (Certificate.round x) 1 in
      let visit = push_parents s (authorities s q) x.header.parents (buffer, already) in
      let (ys, visited, result) = >>=-eq-some (visit_dag fuel s visit) _ e in
      let rest = visit_dag-occurrences fuel r n visit ys visited in
      let pushed = push_parents-occurrences q r n x.header.parents (buffer, already) in
      rw (← some-injective _ _ result) (omega (arith, rest, pushed))

  push_parent-IsBelow :
      (b x r : Round) (n : PublicKey) (d : Digest) (o : Option Certificate) (v : Visit)
      → x ≤ b
      → b ≤ r
      → find_digest d (authorities s (sub64 x 1)) ≡ o
      → IsBelow b v.0
      → let w = push_parent s d o v in IsBelow b w.0 × (occurrences r n w.0 ≡ occurrences r n v.0)
  unfolding push_parent occurrences
  push_parent-IsBelow b x r n d none v below above e h = (h, refl)
  push_parent-IsBelow b x r n d (some c) (buffer, already) below above e h =
      let (held, round, fits) = found_parent s f (sub64 x 1) d c e in
      let earlier = sub64-below x fits in
      let lower : Certificate.round c < r = omega (arith, round, earlier, below, above) in
      elim (Bool-cases (
        Set.contains d already
        || same_round (Map.lookup (Certificate.origin c) s.last_committed) (Certificate.round c))) [
          | inl skip ↦ rw skip (h, refl)
          | inr pushed ↦ rw pushed (
            (omega (arith, round, earlier, below), h),
            rw (not_counted r (Certificate.round c) (Certificate.origin c == n) lower)
                (omega arith),
          )
        ]

  push_parents-IsBelow :
      (b x r : Round) (n : PublicKey) (ds : List Digest) (v : Visit)
      → x ≤ b
      → b ≤ r
      → IsBelow b v.0
      → let w = push_parents s (authorities s (sub64 x 1)) ds v in
        IsBelow b w.0 × (occurrences r n w.0 ≡ occurrences r n v.0)
  unfolding push_parents
  push_parents-IsBelow b x r n [] v below above h = (h, refl)
  push_parents-IsBelow b x r n (d ∷ ds) v below above h =
      let o = find_digest d (authorities s (sub64 x 1)) in
      let (now, same) = push_parent-IsBelow b x r n d o v below above refl h in
      let (after, rest) = push_parents-IsBelow b x r n ds (push_parent s d o v) below above now in
      (after, rest ∙ same)

  -- The certificates that are put on the stack are of rounds before that of the leader.
  pub visit_dag-IsBelow :
      (fuel : ℕ) (b r : Round) (n : PublicKey) (v : Visit) (xs : List Certificate)
      → b ≤ r
      → IsBelow b v.0
      → visit_dag fuel s v ≡ some xs
      → IsBelow b xs × (occurrences r n xs ≡ occurrences r n v.0)
  unfolding visit_dag occurrences
  visit_dag-IsBelow zero b r n v xs above h e = absurd (none-ne-some _ e)
  visit_dag-IsBelow (suc fuel) b r n ([], already) xs above h e =
      rw (← some-injective _ _ e) (tt, refl)
  visit_dag-IsBelow (suc fuel) b r n (x ∷ buffer, already) xs above h e =
      let q = sub64 (Certificate.round x) 1 in
      let visit = push_parents s (authorities s q) x.header.parents (buffer, already) in
      let (ys, visited, result) = >>=-eq-some (visit_dag fuel s visit) _ e in
      let (pushed, same) =
        push_parents-IsBelow b (Certificate.round x) r n x.header.parents (buffer, already) h.0
          above h.1 in
      let (rest, count) = visit_dag-IsBelow fuel b r n visit ys above pushed visited in
      rw (← some-injective _ _ result) ((h.0, rest), omega (arith, count, same))

  pub order_dag-visit :
      (gc_depth : Round) (l : Certificate) (xs : List Certificate)
      → order_dag gc_depth l s ≡ some xs
      → (ys : List Certificate) × (visit_dag (count s.dag + 2) s (l ∷ [], []) ≡ some ys)
        × (xs
            ≡ sort_by_key Certificate.round (
                select (λ x. leb s.last_committed_round (add64 (Certificate.round x) gc_depth)) ys))
  unfolding order_dag
  order_dag-visit gc_depth l xs e =
      let (ys, visited, result) = >>=-eq-some (visit_dag (count s.dag + 2) s (l ∷ [], [])) _ e in
      (ys, visited, sym (some-injective _ _ result))

  -- In a filed state, `order_dag` returns at most one certificate of each round and origin.
  pub order_dag-once :
      (gc_depth : Round) (l : Certificate) (xs : List Certificate) (r : Round) (n : PublicKey)
      → order_dag gc_depth l s ≡ some xs
      → occurrences r n xs ≤ 1
  order_dag-once gc_depth l xs r n e =
      let (ys, visited, result) = order_dag-visit gc_depth l xs e in
      let recent =
        λ (x : Certificate). leb s.last_committed_round (add64 (Certificate.round x) gc_depth) in
      let sorted = sort-occurrences r n (select recent ys) in
      let chosen = select-occurrences r n recent ys in
      let (single, none_before) = singleton-occurrences r n l in
      let once : occurrences r n ys ≤ 1 = elim (Bool-cases (leb (Certificate.round l) r)) [
        | inl late ↦
            let (below, same) =
              visit_dag-IsBelow (count s.dag + 2) (Certificate.round l) r n (l ∷ [], []) ys
                (ground (arith, late)) (omega arith, tt) visited in
            omega (arith, same, single)
        | inr early ↦
            let bound = visit_dag-occurrences (count s.dag + 2) r n (l ∷ [], []) ys visited in
            let before = none_before (ground (arith, early)) in
            let space = empty-room (entry r n s.dag) in omega (arith, bound, before, space)
      ] in
      rw result (omega (arith, sorted, chosen, once))
