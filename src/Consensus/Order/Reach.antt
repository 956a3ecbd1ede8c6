-- ===== src/Consensus/Order/Reach.antt =====
-- The certificates that the loop of `order_dag` may reach from the leader through parents.
use mathlib.Core.Option.{some-injective, none-ne-some}
use narwhal_td.Base.{
  ℕ, zero, suc, ◌≡◌, refl, Bool, true, false, ◌||◌, Option, none, some, List, [], ◌∷◌, All, arith,
  sub64, Bool-cases, inl, inr,
}
use narwhal_td.Base.Map
use narwhal_td.Base.Set
use narwhal_td.Base.Options.{>>=-eq-some}
use narwhal_td.Crypto.{Digest}
use narwhal_td.Primary.Certificate
use narwhal_td.Primary.Certificate.{Certificate}
use narwhal_td.Consensus.State.{State}
use narwhal_td.Consensus.Order.Held.{authorities, or-false}
use narwhal_td.Consensus.Order.{
  find_digest, same_round, Visit, push_parent, push_parents, visit_dag,
}

-- The last certificate of its origin that was committed.
abbrev pub is_committed : State → Certificate → Bool
is_committed s c =
    same_round (Map.lookup (Certificate.origin c) s.last_committed) (Certificate.round c)

-- The leader, and each parent of such a certificate that the DAG holds in the round before, unless it
-- is the last committed one of its origin.
pub data Reaches (s : State) (l : Certificate) : Certificate → Type 0 where
  itself : Reaches s l l
  parent :
      {x : Certificate} (d : Digest) (c : Certificate)
      → Reaches s l x
      → Set.contains d x.header.parents ≡ true
      → find_digest d (authorities s (sub64 (Certificate.round x) 1)) ≡ some c
      → is_committed s c ≡ false
      → Reaches s l c

module _ (s : State) (l x : Certificate) (reached : Reaches s l x) where
  push_parent-Reaches :
      (d : Digest) (o : Option Certificate) (v : Visit)
      → find_digest d (authorities s (sub64 (Certificate.round x) 1)) ≡ o
      → Set.contains d x.header.parents ≡ true
      → All (Reaches s l) v.0
      → All (Reaches s l) (push_parent s d o v).0
  unfolding push_parent
  push_parent-Reaches d none v e p h = h
  push_parent-Reaches d (some c) (buffer, already) e p h =
      elim (Bool-cases (Set.contains d already || is_committed s c)) [
        | inl skip ↦ rw skip h
        | inr pushed ↦ rw pushed (parent d c reached p e (or-false _ _ pushed).1, h)
      ]

  push_parents-Reaches :
      (ds : List Digest) (v : Visit)
      → ((d : Digest) → Set.contains d ds ≡ true → Set.contains d x.header.parents ≡ true)
      → All (Reaches s l) v.0
      → All (Reaches s l) (push_parents s (authorities s (sub64 (Certificate.round x) 1)) ds v).0
  unfolding push_parents Set.contains
  push_parents-Reaches [] v p h = h
  push_parents-Reaches (d ∷ ds) v p h =
      let o = find_digest d (authorities s (sub64 (Certificate.round x) 1)) in
      push_parents-Reaches ds (push_parent s d o v) (λ b e. p b (ground (arith, e)))
        (push_parent-Reaches d o v refl (p d (ground arith)) h)

pub visit_dag-Reaches :
    (s : State) (l : Certificate) (fuel : ℕ) (v : Visit) (xs : List Certificate)
    → All (Reaches s l) v.0
    → visit_dag fuel s v ≡ some xs
    → All (Reaches s l) xs
unfolding visit_dag
visit_dag-Reaches s l zero v xs h e = absurd (none-ne-some _ e)
visit_dag-Reaches s l (suc fuel) ([], already) xs h e = rw (← some-injective _ _ e) tt
visit_dag-Reaches s l (suc fuel) (x ∷ buffer, already) xs h e =
    let q = sub64 (Certificate.round x) 1 in
    let visit = push_parents s (authorities s q) x.header.parents (buffer, already) in
    let (ys, visited, result) = >>=-eq-some (visit_dag fuel s visit) _ e in
    let pushed = push_parents-Reaches s l x h.0 x.header.parents (buffer, already) (λ d p. p) h.1 in
    rw (← some-injective _ _ result) (h.0, visit_dag-Reaches s l fuel visit ys pushed visited)
