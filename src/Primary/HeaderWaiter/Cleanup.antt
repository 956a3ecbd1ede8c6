-- ===== src/Primary/HeaderWaiter/Cleanup.antt =====
-- What the header waiter keeps of rounds that are garbage collected.
use mathlib.Core.Option.{some-injective, none-ne-some}
use narwhal_td.Base.{
  ℕ, ◌-◌, ◌<◌, ◌≡◌, refl, sym, subst, ◌⊎◌, true, Option, none, some, [], ◌∷◌, All, arith, ltb,
  Bool-cases, inl, inr,
}
use narwhal_td.Base.Map
use narwhal_td.Base.Map.{Map}
use narwhal_td.Primary.Header.{Round}
use narwhal_td.Primary.Platform.{WaiterMessage}
use narwhal_td.Primary.HeaderWaiter.{
  HeaderWaiter, Event, command, header_of, contains_key, collect, cleanup, clean, step, start,
  finish, retry, finished, timer,
}

-- All that is noted in the maps is of a later round.
pub record IsAbove (gc_round : Round) (s : HeaderWaiter) : Type 0 where
  pub pending : All (λ (x : Round × ℕ). gc_round < x.0) (Map.values s.pending)
  pub batches : All (λ (r : Round). gc_round < r) (Map.values s.batch_requests)
  pub parents : All (λ (x : Round × ℕ). gc_round < x.0) (Map.values s.parent_requests)

retained-above :
    {V : Type 0} (round : V → Round) (n : Round) (m : Map V)
    → All (λ (v : V). n < round v) (Map.values (Map.retain_values (λ v. ltb n (round v)) m))
unfolding Map.retain_values
retained-above round n [] = tt
retained-above round n ((j, v) ∷ m) = elim (Bool-cases (ltb n (round v))) [
  | inl above ↦ rw above (ground (arith, above), retained-above round n m)
  | inr below ↦ rw below (retained-above round n m)
]

cleanup-IsAbove :
    (round : Round) (s : HeaderWaiter)
    → s.gc_depth < round
    → IsAbove (round - s.gc_depth) (cleanup round s)
unfolding cleanup collect
cleanup-IsAbove round s due =
    let later : ltb s.gc_depth round ≡ true = ground arith in
    rw later (record {
      pending = retained-above (λ x. x.0) (round - s.gc_depth) s.pending;
      batches = retained-above (λ r. r) (round - s.gc_depth) s.batch_requests;
      parents = retained-above (λ x. x.0) (round - s.gc_depth) s.parent_requests;
    })

cleanup-depth : (round : Round) (s : HeaderWaiter) → (cleanup round s).gc_depth ≡ s.gc_depth
unfolding cleanup collect
cleanup-depth round s = ground arith

clean-IsAbove :
    (round : Round) (o : Option HeaderWaiter) (t : HeaderWaiter)
    → clean round o ≡ some t
    → t.gc_depth < round
    → IsAbove (round - t.gc_depth) t
unfolding cleanup
clean-IsAbove round none t e due = absurd (none-ne-some _ e)
clean-IsAbove round (some u) t e due =
    subst (λ (v : HeaderWaiter). v.gc_depth < round → IsAbove (round - v.gc_depth) v)
      (some-injective _ _ e)
      (λ d.
        rw (cleanup-depth round u)
          (cleanup-IsAbove round u (omega (arith, d, cleanup-depth round u))))
      due

-- When consensus is more than the garbage collection depth ahead, a round of the loop leaves no entry of
-- a round up to the collected one, in any of its three maps; unless it received a command for a header
-- that is pending already, which changes nothing and skips the cleanup.
pub step-IsAbove :
    (now : ℕ) (round : Round) (e : Event) (s t : HeaderWaiter)
    → step now round e s ≡ some t
    → t.gc_depth < round
    → ((m : WaiterMessage) × (e ≡ command m)
        × (contains_key (Map.lookup (header_of m).id s.pending) ≡ true)
        × (t ≡ s))
      ⊎ IsAbove (round - t.gc_depth) t
unfolding step
step-IsAbove now round (command m) s t e due =
    elim (Bool-cases (contains_key (Map.lookup (header_of m).id s.pending))) [
      | inl known ↦ inl (m, refl, known, sym (some-injective _ _ (rw known at e)))
      | inr fresh ↦ inr (clean-IsAbove round (start now m s) t (rw fresh at e) due)
    ]
step-IsAbove now round (finished channel o) s t e due =
    inr (clean-IsAbove round (finish channel o s) t e due)
step-IsAbove now round timer s t e due = inr (clean-IsAbove round (some (retry now s)) t e due)
