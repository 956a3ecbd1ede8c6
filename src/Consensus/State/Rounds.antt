-- ===== src/Consensus/State/Rounds.antt =====
-- How `State::update` moves the last committed rounds.
use mathlib.Core.Option
use narwhal_td.Base.{◌≡◌, some, [], ◌∷◌, arith, ◌==◌, if◌then◌else◌}
use narwhal_td.Base.Map
use narwhal_td.Base.Map.{Map, lookup-insert}
use narwhal_td.Crypto.{PublicKey}
use narwhal_td.Primary.Header.{Round}
use narwhal_td.Primary.Certificate
use narwhal_td.Primary.Certificate.{Certificate}
use narwhal_td.Consensus.State.{State, max, max_value, raised, raise, update}
use narwhal_td.Consensus.State.Clean.{IsWell}

max_value-insert :
    (k : PublicKey) (r : Round) (m : Map Round)
    → max_value (Map.insert k (raised (Map.lookup k m) r) m) ≡ max (max_value m) r
unfolding max_value Map.insert Map.lookup raised
max_value-insert k r [] = ground arith
max_value-insert k r ((j, w) ∷ m) = ground (arith, max_value-insert k r m)

-- In a well-formed state, committing a certificate raises the last committed round of its origin
-- and of the whole to its round, where it is higher, and moves no other.
pub update-rounds :
    (s : State) (c : Certificate) (gc_depth : Round) (n : PublicKey)
    → IsWell s
    → let s' = update s c gc_depth in
      (s'.last_committed_round ≡ max s.last_committed_round (Certificate.round c))
      × (Map.lookup n s'.last_committed ≡ (
          if Certificate.origin c == n
          then some (
              Map.or_default
                (Certificate.round c)
                (Option.map (λ r. max r (Certificate.round c)) (Map.lookup n s.last_committed)))
          else Map.lookup n s.last_committed))
unfolding update raise raised
update-rounds s c gc_depth n w = (
  ground (
    arith,
    w.highest,
    max_value-insert (Certificate.origin c) (Certificate.round c) s.last_committed,
  ),
  ground (
    arith,
    lookup-insert (Certificate.origin c) n
        (raised (Map.lookup (Certificate.origin c) s.last_committed) (Certificate.round c))
        s.last_committed,
  ),
)

-- What committing a certificate makes of the last committed round of an origin.
pub lookup-raise :
    (c : Certificate) (m : Map Round) (n : PublicKey)
    → Map.lookup n (raise c m) ≡ (
        if Certificate.origin c == n
        then some (
            Map.or_default
              (Certificate.round c)
              (Option.map (λ r. max r (Certificate.round c)) (Map.lookup n m)))
        else Map.lookup n m)
unfolding raise raised
lookup-raise c m n = ground (
  arith,
  lookup-insert (Certificate.origin c) n
      (raised (Map.lookup (Certificate.origin c) m) (Certificate.round c)) m,
)
