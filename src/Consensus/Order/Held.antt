-- ===== src/Consensus/Order/Held.antt =====
-- Which certificates the loop of `order_dag` finds in a filed DAG.
use narwhal_td.Base.{
  ℕ, ◌+◌, ◌^◌, ◌<◌, ◌≡◌, refl, sym, subst, Bool, true, false, ◌||◌, Option, none, some, List, [],
  ◌∷◌, arith, ◌==◌, if◌then◌else◌, Bool-cases, inl, inr,
}
use narwhal_td.Base.Map
use narwhal_td.Base.Map.{Map}
use narwhal_td.Base.Set
use narwhal_td.Base.Set.{Distinct}
use narwhal_td.Crypto.{Digest, PublicKey}
use narwhal_td.Primary.Header.{Round}
use narwhal_td.Primary.Certificate
use narwhal_td.Primary.Certificate.{Certificate}
use narwhal_td.Consensus.State.{Authorities, State}
use narwhal_td.Consensus.State.Clean.{entry, is_recent}
use narwhal_td.Consensus.State.Filed.{IsFiled, lookup-named}
use narwhal_td.Consensus.Order.{find_digest, same_round}

-- Whether the entry of the DAG for the round and the origin may still go on the stack.
abbrev pub room_for : Option (Digest × Certificate) → List Digest → ℕ
room_for none already = 0
room_for (some (d, c)) already = if Set.contains d already then 0 else 1

abbrev pub room : State → Round → PublicKey → List Digest → ℕ
room s r n already = room_for (entry r n s.dag) already

abbrev pub authorities : State → Round → Authorities
authorities s q = Map.or_default [] (Map.lookup q s.dag)

find_digest-lookup :
    (d : Digest) (m : Authorities) (c : Certificate)
    → Distinct (Map.keys m)
    → find_digest d m ≡ some c
    → (n : PublicKey) × (Map.lookup n m ≡ some (d, c))
unfolding find_digest Map.lookup
find_digest-lookup d [] c k e = cc
find_digest-lookup d ((name, (x, y)) ∷ m) c k e = elim (Bool-cases (x == d)) [
  | inl same ↦ (name, ground (arith, same))
  | inr other ↦
      let (n, found) = find_digest-lookup d m c k.1 (rw other at e) in
      (n, ground (arith, found, Map.lookup-absent name m, k.0))
]

-- A certificate that may go on the stack: filed, and later than the last committed of its origin.
abbrev pub IsLater : Option Round → Round → Type 0
IsLater none r = Unit
IsLater (some q) r = q < r

abbrev pub IsNew : State → Certificate → Type 0
IsNew s c = IsLater (Map.lookup (Certificate.origin c) s.last_committed) (Certificate.round c)

pub recent-IsLater :
    (o : Option Round) (r : Round) → is_recent o r ≡ true → same_round o r ≡ false → IsLater o r
recent-IsLater none r h k = tt
recent-IsLater (some q) r h k = ground arith

pub or-false : (a b : Bool) → (a || b) ≡ false → (a ≡ false) × (b ≡ false)
or-false true b h = cc
or-false false b h = (refl, h)

module _ (s : State) (f : IsFiled s) where
  -- A parent that is found in a round of the DAG.
  pub found_parent :
      (q : Round) (d : Digest) (c : Certificate)
      → find_digest d (authorities s q) ≡ some c
      → (entry q (Certificate.origin c) s.dag ≡ some (d, c))
        × (Certificate.round c ≡ q)
        × (q + 1 < 2 ^ 64)
  found_parent q d c e =
      let (n, found) = find_digest-lookup d (authorities s q) c (lookup-named q s.dag f.named) e in
      let (round, origin, fits) = f.filed q n d c found in
      (subst (λ (x : PublicKey). entry q x s.dag ≡ some (d, c)) (sym origin) found, round, fits)
