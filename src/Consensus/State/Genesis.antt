-- ===== src/Consensus/State/Genesis.antt =====
-- The state that consensus starts with, `State::new` on the genesis certificates.
use mathlib.Core.Option.{some-injective, none-ne-some}
use narwhal_td.Base.{
  ◌≡◌, refl, sym, ◌∙◌, ap, true, some, List, [], ◌∷◌, All, arith, ◌==◌, Bool-cases, inl, inr,
}
use narwhal_td.Base.Map
use narwhal_td.Base.Map.{Map, insert-Distinct}
use narwhal_td.Base.Set.{Distinct, contains}
use narwhal_td.Crypto.{Digest, PublicKey, Primitives}
use narwhal_td.Config.{Committee}
use narwhal_td.Primary.Header.{Round}
use narwhal_td.Primary.Certificate
use narwhal_td.Primary.Certificate.{Certificate, genesis}
use narwhal_td.Primary.Certificate.Genesis.{genesis-rounds}
use narwhal_td.Consensus.State.{Authorities, max_value, collect_genesis, genesis_rounds, new}
use narwhal_td.Consensus.State.Clean.{entry, is_recent, IsWell}
use narwhal_td.Consensus.State.Filed.{IsFiled}

-- Each certificate is of round 0 and stands under its origin.
abbrev AreFirst : Authorities → Type 0
AreFirst m =
    All
      (λ (e : PublicKey × (Digest × Certificate)).
        (Certificate.round e.1.1 ≡ 0) × (Certificate.origin e.1.1 ≡ e.0))
      m

insert-AreFirst :
    (d : Digest) (x : Certificate) (m : Authorities)
    → Certificate.round x ≡ 0
    → AreFirst m
    → AreFirst (Map.insert (Certificate.origin x) (d, x) m)
unfolding Map.insert
insert-AreFirst d x [] zero_round h = ((zero_round, refl), tt)
insert-AreFirst d x ((n, y) ∷ m) zero_round h = elim (Bool-cases (n == Certificate.origin x)) [
  | inl same ↦ rw same ((zero_round, refl), h.1)
  | inr other ↦ rw other (h.0, insert-AreFirst d x m zero_round h.1)
]

module _ (p : Primitives) where
  collect-AreFirst :
      (m : Authorities) (xs : List Certificate)
      → All (λ x. Certificate.round x ≡ 0) xs
      → AreFirst m
      → Distinct (Map.keys m)
      → AreFirst (collect_genesis p m xs) × Distinct (Map.keys (collect_genesis p m xs))
  unfolding collect_genesis
  collect-AreFirst m [] h first distinct = (first, distinct)
  collect-AreFirst m (x ∷ xs) h first distinct =
      collect-AreFirst (Map.insert (Certificate.origin x) (Certificate.digest p x, x) m) xs h.1
        (insert-AreFirst (Certificate.digest p x) x m h.0 first) (insert-Distinct _ _ m distinct)

rounds-keys : (m : Authorities) → Map.keys (genesis_rounds m) ≡ Map.keys m
unfolding genesis_rounds
rounds-keys [] = refl
rounds-keys ((n, (d, x)) ∷ m) = ap (λ (ks : List PublicKey). n ∷ ks) (rounds-keys m)

highest-zero : (m : Authorities) → AreFirst m → max_value (genesis_rounds m) ≡ 0
unfolding genesis_rounds max_value
highest-zero [] h = refl
highest-zero ((n, (d, x)) ∷ m) h = ground (arith, h.0, highest-zero m h.1)

recent-zero :
    (m : Authorities) (n : PublicKey)
    → AreFirst m
    → is_recent (Map.lookup n (genesis_rounds m)) 0 ≡ true
unfolding genesis_rounds Map.lookup
recent-zero [] n h = refl
recent-zero ((k, (d, x)) ∷ m) n h = ground (arith, h.0, recent-zero m n h.1)

lookup-first :
    (m : Authorities) (n : PublicKey) (d : Digest) (x : Certificate)
    → AreFirst m
    → Map.lookup n m ≡ some (d, x)
    → (Certificate.round x ≡ 0) × (Certificate.origin x ≡ n)
unfolding Map.lookup
lookup-first [] n d x h e = absurd (none-ne-some _ e)
lookup-first ((k, (c, y)) ∷ m) n d x h e = elim (Bool-cases (k == n)) [
  | inl here ↦
      let same = some-injective _ _ (rw here at e) in
      let certificate = ap (λ (z : Digest × Certificate). z.1) same in
      (rw (← certificate) h.0.0, rw (← certificate) (h.0.1 ∙ ground (arith, here)))
  | inr later ↦ lookup-first m n d x h.1 (rw later at e)
]

-- The state at the start is well-formed and filed.
pub new-IsWell : (p : Primitives) (c : Committee) → IsWell (new p (genesis c))
unfolding new contains
new-IsWell p c =
    let (first, distinct) = collect-AreFirst p [] (genesis c) (genesis-rounds c) tt tt in
    record {
      dag_keys = (refl, tt);
      names = rw (rounds-keys (collect_genesis p [] (genesis c))) distinct;
      highest = sym (highest-zero (collect_genesis p [] (genesis c)) first);
    }

first-entry :
    (m : Authorities) (r : Round) (n : PublicKey) (x : Digest × Certificate)
    → entry r n ((0, m) ∷ []) ≡ some x
    → (r ≡ 0) × (Map.lookup n m ≡ some x)
unfolding Map.lookup
first-entry m r n x e = elim (Bool-cases (0 == r)) [
  | inl first ↦ (ground (arith, first), rw first at e)
  | inr later ↦ absurd (none-ne-some _ (rw later at e))
]

pub new-IsFiled : (p : Primitives) (c : Committee) → IsFiled (new p (genesis c))
unfolding new Map.lookup
new-IsFiled p c =
    let m = collect_genesis p [] (genesis c) in
    let (first, distinct) = collect-AreFirst p [] (genesis c) (genesis-rounds c) tt tt in
    record {
      named = (distinct, tt);
      filed = λ r n d x e.
          let (zero_round, found) = first-entry m r n (d, x) e in
          let (round, origin) = lookup-first m n d x first found in
          (round ∙ sym zero_round, origin, omega (arith, zero_round));
      recent = λ r n d x e.
          let (zero_round, found) = first-entry m r n (d, x) e in
          rw zero_round (recent-zero m n first);
    }
