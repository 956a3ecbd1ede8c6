-- ===== src/Consensus/Order/Complete.antt =====
-- The certificates that `order_dag` of consensus/src/lib.rs returns, against those that it may reach.
use mathlib.Core.Option.{some-injective, none-ne-some}
use narwhal_td.Base.{
  ◌+◌, ℕ, zero, suc, ◌≡◌, ◌↔◌, refl, sym, ap, ◌∙◌, true, false, Option, none, some, List, [], ◌∷◌,
  arith, sub64, add64, leb, ◌==◌, select, Bool-cases, inl, inr, ◌⊎◌, subst,
}
use narwhal_td.Base.Set
use narwhal_td.Base.Set.{Distinct}
use narwhal_td.Base.Members.{IsIn, IsIn-All, IsIn-sort_by_key, IsIn-select}
use narwhal_td.Base.Options.{>>=-eq-some}
use narwhal_td.Crypto.{Digest}
use narwhal_td.Primary.Header.{Round}
use narwhal_td.Primary.Certificate
use narwhal_td.Primary.Certificate.{Certificate}
use narwhal_td.Consensus.State.{State}
use narwhal_td.Consensus.Order.Held.{authorities}
use narwhal_td.Consensus.Order.Keyed.{IsKeyed, keyed-one}
use narwhal_td.Consensus.Order.Reach.{is_committed, Reaches, itself, parent, visit_dag-Reaches}
use narwhal_td.Consensus.Order.{
  find_digest, Visit, push_parent, push_parents, visit_dag, count, order_dag,
}

module _ (s : State) (keyed : IsKeyed s) where
  -- What was put on the stack is still there, or done.
  abbrev IsCovered : (Certificate → Type 0) → Visit → Type 0
  IsCovered Done v =
      (d : Digest) (q : Round) (c : Certificate)
      → Set.contains d v.1 ≡ true
      → find_digest d (authorities s q) ≡ some c
      → IsIn c v.0 ⊎ Done c

  -- Nothing leaves the stack.
  abbrev Grows : Visit → Visit → Type 0
  Grows v w = (c : Certificate) → IsIn c v.0 → IsIn c w.0

  module _ (Done : Certificate → Type 0) where
    pushed-IsCovered :
        (q : Round) (d : Digest) (c : Certificate) (buffer : List Certificate)
        (already : List Digest)
        → find_digest d (authorities s q) ≡ some c
        → IsCovered Done (buffer, already)
        → IsCovered Done (c ∷ buffer, d ∷ already)
    unfolding Set.contains
    pushed-IsCovered q d c buffer already e h b r x held found = elim (Bool-cases (b == d)) [
      | inl same ↦
          let same_digest : b ≡ d = ground (arith, same) in
          let found_ =
            subst (λ (k : ℕ). find_digest k (authorities s r) ≡ some x) same_digest found in
          inl (inl (keyed-one s keyed d r q x c found_ e))
      | inr other ↦ elim (h b r x (rw other at held) found) [
        | inl waiting ↦ inl (inr waiting)
        | inr done ↦ inr done
      ]
    ]

    push_parent-IsCovered :
        (q : Round) (d : Digest) (o : Option Certificate) (v : Visit)
        → find_digest d (authorities s q) ≡ o
        → IsCovered Done v
        → let w = push_parent s d o v in
          (IsCovered Done w)
          × (Grows v w)
          × ((c : Certificate) → o ≡ some c → is_committed s c ≡ false → IsIn c w.0 ⊎ Done c)
    unfolding push_parent Set.contains
    push_parent-IsCovered q d none v e h = (h, λ c i. i, λ c f. absurd (none-ne-some _ f))
    push_parent-IsCovered q d (some c) (buffer, already) e h =
        elim (Bool-cases (Set.contains d already)) [
          | inl old ↦ rw old (h, λ b i. i, λ b same free. h d q b old (e ∙ same))
          | inr fresh ↦ elim (Bool-cases (is_committed s c)) [
            | inl committed ↦
                rw (fresh, committed)
                  (
                    h,
                    λ b i. i,
                    λ b same free.
                        let no_ : true ≡ false =
                          sym committed ∙ (ap (is_committed s) (some-injective _ _ same) ∙ free) in
                        cc,
                  )
            | inr free ↦
                rw (fresh, free)
                  (
                    pushed-IsCovered q d c buffer already e h,
                    λ b i. inr i,
                    λ b same free_. inl (inl (sym (some-injective _ _ same))),
                  )
          ]
        ]

    -- Each of the parents that is found and not committed is still on the stack, or done.
    push_parents-IsCovered :
        (q : Round) (ds : List Digest) (v : Visit)
        → IsCovered Done v
        → let w = push_parents s (authorities s q) ds v in
          (IsCovered Done w)
          × (Grows v w)
          × ((d : Digest) (c : Certificate)
              → Set.contains d ds ≡ true
              → find_digest d (authorities s q) ≡ some c
              → is_committed s c ≡ false
              → IsIn c w.0 ⊎ Done c)
    unfolding push_parents Set.contains
    push_parents-IsCovered q [] v h = (h, λ c i. i, λ d c p. cc)
    push_parents-IsCovered q (d ∷ ds) v h =
        let o = find_digest d (authorities s q) in
        let (covered, grows, first) = push_parent-IsCovered q d o v refl h in
        let (covered', grows', rest) = push_parents-IsCovered q ds (push_parent s d o v) covered in
        (
          covered',
          λ c i. grows' c (grows c i),
          λ b c p e free. elim (Bool-cases (b == d)) [
            | inl same ↦
                let same_digest : b ≡ d = ground (arith, same) in
                let found =
                  subst (λ (k : ℕ). find_digest k (authorities s q) ≡ some c) same_digest e in
                elim (first c found free) [
                  | inl waiting ↦ inl (grows' c waiting)
                  | inr done ↦ inr done
                ]
            | inr other ↦ rest b c (rw other at p) e free
          ],
        )

  done_before :
      (Done : Certificate → Type 0) (x c : Certificate) (ys : List Certificate)
      → IsIn c ys ⊎ (c ≡ x) ⊎ Done c
      → IsIn c (x ∷ ys) ⊎ Done c
  done_before Done x c ys (inl i) = inl (inr i)
  done_before Done x c ys (inr (inl same)) = inl (inl same)
  done_before Done x c ys (inr (inr done)) = inr done

  -- What is on the stack comes out, and each parent of it that is found and not committed comes out or
  -- is done.
  visit_dag-closed :
      (fuel : ℕ) (Done : Certificate → Type 0) (v : Visit) (xs : List Certificate)
      → IsCovered Done v
      → visit_dag fuel s v ≡ some xs
      → ((c : Certificate) → IsIn c v.0 → IsIn c xs)
        × ((x : Certificate) (d : Digest) (c : Certificate)
            → IsIn x xs
            → Set.contains d x.header.parents ≡ true
            → find_digest d (authorities s (sub64 (Certificate.round x) 1)) ≡ some c
            → is_committed s c ≡ false
            → IsIn c xs ⊎ Done c)
  unfolding visit_dag
  visit_dag-closed zero Done v xs h e = absurd (none-ne-some _ e)
  visit_dag-closed (suc fuel) Done ([], already) xs h e =
      let nothing = some-injective _ _ e in
      (λ c i. absurd i, λ x d c i p f n. absurd (subst (IsIn x) (sym nothing) i))
  visit_dag-closed (suc fuel) Done (x ∷ buffer, already) xs h e =
      let q = sub64 (Certificate.round x) 1 in
      let visit = push_parents s (authorities s q) x.header.parents (buffer, already) in
      let (ys, visited, result) = >>=-eq-some (visit_dag fuel s visit) _ e in
      let Done' = λ (c : Certificate). (c ≡ x) ⊎ Done c in
      let (covered, grows, found) =
        push_parents-IsCovered Done' q x.header.parents (buffer, already)
          (λ b r c held f. elim (h b r c held f) [
            | inl (inl same) ↦ inr (inl same)
            | inl (inr waiting) ↦ inl waiting
            | inr done ↦ inr (inr done)
          ]) in
      let (out, closed) = visit_dag-closed fuel Done' visit ys covered visited in
      rw (← some-injective _ _ result) (
        λ c i. elim i [ inl same ↦ inl same | inr later ↦ inr (out c (grows c later)) ],
        λ y b c i p f free. elim i [
          | inr later ↦ done_before Done x c ys (closed y b c later p f free)
          | inl same ↦
              let p_ = subst (λ z. Set.contains b z.header.parents ≡ true) same p in
              let f_ =
                subst (λ z. find_digest b (authorities s (sub64 (Certificate.round z) 1)) ≡ some c)
                  same f in
              done_before Done x c ys (elim (found b c p_ f_ free) [
                | inl waiting ↦ inl (out c waiting)
                | inr done ↦ inr done
              ])
        ],
      )

  closed-Reaches :
      (l : Certificate) (xs : List Certificate)
      → IsIn l xs
      → ((x : Certificate) (d : Digest) (c : Certificate)
          → IsIn x xs
          → Set.contains d x.header.parents ≡ true
          → find_digest d (authorities s (sub64 (Certificate.round x) 1)) ≡ some c
          → is_committed s c ≡ false
          → IsIn c xs)
      → (c : Certificate) → Reaches s l c
      → IsIn c xs
  closed-Reaches l xs start closed _ itself = start
  closed-Reaches l xs start closed _ (parent {x} d c r p f free) =
      closed x d c (closed-Reaches l xs start closed x r) p f free

  -- Every certificate that is reached from the leader comes out.
  Reaches-visit_dag :
      (fuel : ℕ) (l c : Certificate) (xs : List Certificate)
      → visit_dag fuel s (l ∷ [], []) ≡ some xs
      → Reaches s l c
      → IsIn c xs
  unfolding Set.contains
  Reaches-visit_dag fuel l c xs e r =
      let (out, closed) = visit_dag-closed fuel (λ c. ⊥) (l ∷ [], []) xs (λ d q c. cc) e in
      closed-Reaches l xs (out l (inl refl))
        (λ x d c i p f free. elim (closed x d c i p f free) [
          | inl found ↦ found
          | inr done ↦ absurd done
        ])
        c r

-- Where no two certificates of the DAG have the same digest, the certificates that `order_dag` returns
-- are exactly those that are reached from the leader through parents that the DAG holds in the round
-- before and that are not the last committed ones of their origins, if they are within the gc depth of
-- the last committed round.
pub order_dag_iff :
    (gc_depth : Round) (l : Certificate) (s : State) (xs : List Certificate) (c : Certificate)
    → IsKeyed s
    → order_dag gc_depth l s ≡ some xs
    → IsIn c xs
      ↔ (Reaches s l c × (leb s.last_committed_round (add64 (Certificate.round c) gc_depth) ≡ true))
unfolding order_dag
order_dag_iff gc_depth l s xs c keyed e =
    let recent =
      λ (x : Certificate). leb s.last_committed_round (add64 (Certificate.round x) gc_depth) in
    let (ys, visited, result) = >>=-eq-some (visit_dag (count s.dag + 2) s (l ∷ [], [])) _ e in
    let sorted = IsIn-sort_by_key Certificate.round c (select recent ys) in
    let chosen = IsIn-select recent c ys in
    rw (← some-injective _ _ result) (
      λ i.
          let (found, kept) = chosen.0 (sorted.0 i) in
          (
            IsIn-All (Reaches s l) c ys
                (visit_dag-Reaches s l (count s.dag + 2) (l ∷ [], []) ys (itself, tt) visited)
                found,
            kept,
          ),
      λ h.
          sorted.1 (chosen.1 (Reaches-visit_dag s keyed (count s.dag + 2) l c ys visited h.0, h.1)),
    )
