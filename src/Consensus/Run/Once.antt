-- ===== src/Consensus/Run/Once.antt =====
-- What `run` of consensus/src/lib.rs sends over its whole life.
use mathlib.Core.Option.{some-injective, none-ne-some}
use narwhal_td.Base.{
  ◌≤◌, ◌≡◌, refl, subst, true, Option, none, some, List, [], ◌∷◌, ◌++◌, arith, ◌==◌, ◌&&◌,
  Bool-cases, inl, inr,
}
use narwhal_td.Base.Map
use narwhal_td.Base.Map.{Map}
use narwhal_td.Base.Options.{>>=-eq-some}
use narwhal_td.Crypto.{PublicKey, Primitives}
use narwhal_td.Primary.Header.{Round}
use narwhal_td.Primary.Certificate
use narwhal_td.Primary.Certificate.{Certificate}
use narwhal_td.Consensus.State.{State, raise}
use narwhal_td.Consensus.State.Clean.{IsWell}
use narwhal_td.Consensus.State.Filed.{IsFiled}
use narwhal_td.Consensus.Order.Held.{IsLater}
use narwhal_td.Consensus.Order.Occurrences.{occurrences}
use narwhal_td.Consensus.Order.Ascends.{Ascends}
use narwhal_td.Consensus.Run.{Consensus, process, run}
use narwhal_td.Consensus.Run.Filed.{is_timely}
use narwhal_td.Consensus.State.{new, max}
use mathlib.Core.Option
use narwhal_td.Consensus.State.Rounds.{lookup-raise}
use narwhal_td.Consensus.State.Genesis.{new-IsWell, new-IsFiled}
use narwhal_td.Consensus.Order.Once.{same-round_origin}
use narwhal_td.Consensus.Run.Commits.{
  Commits, same_parts, skipped-Commits, Commits-append, process-Commits,
}

-- Each certificate is timely when it arrives.
unfoldable pub AreTimely : Primitives → Consensus → List Certificate → State → Type 0
AreTimely p k [] s = Unit {0}
AreTimely p k (c ∷ cs) s =
    (is_timely s c ≡ true)
    × (elim (process p k c s) [ none ↦ Unit {0} | some (t, xs) ↦ AreTimely p k cs t ])

pub run-Commits :
    (p : Primitives) (k : Consensus) (cs : List Certificate) (s t : State) (xs : List Certificate)
    → IsWell s
    → IsFiled s
    → AreTimely p k cs s
    → run p k cs s ≡ some (t, xs)
    → Commits s t xs
unfolding run AreTimely
run-Commits p k [] s t xs w f timely e = skipped-Commits s t xs w f e
run-Commits p k (c ∷ cs) s t xs w f timely e =
    let ((u, ys), now, rest) = >>=-eq-some (process p k c s) _ e in
    let ((v, zs), later, result) = >>=-eq-some (run p k cs u) _ rest in
    let first = process-Commits p k c s u ys w f timely.0 now in
    let second = run-Commits p k cs u v zs first.well first.filed (rw now at timely.1) later in
    let (state, output) = same_parts v t (ys ++ zs) xs result in
    subst (λ (ws : List Certificate). Commits s t ws) output
      (subst (λ (x : State). Commits s x (ys ++ zs)) state
        (Commits-append s u v ys zs first second))

-- Along a run, in which each certificate that arrives is not older than the last committed one of its
-- origin, the certificates that are sent have for each origin rising rounds, from the last committed
-- ones on.
pub run-Ascends :
    (p : Primitives) (k : Consensus) (cs : List Certificate) (s t : State) (xs : List Certificate)
    → IsWell s
    → IsFiled s
    → AreTimely p k cs s
    → run p k cs s ≡ some (t, xs)
    → Ascends s.last_committed xs
run-Ascends p k cs s t xs w f timely e = (run-Commits p k cs s t xs w f timely e).ascends

-- The last committed round of an origin after a certificate of this round.
abbrev higher : Option Round → Round → Option Round
higher o round = some (Map.or_default round (Option.map (λ r. max r round) o))

max-past : (o : Option Round) (x r : Round) → (IsLater o r → ⊥) → IsLater (higher o x) r → ⊥
max-past none x r h k = h tt
max-past (some q) x r h k = h (ground (arith, k))

max-covers : (o : Option Round) (x : Round) → IsLater (higher o x) x → ⊥
max-covers none x h = ground (arith, h)
max-covers (some q) x h = ground (arith, h)

raise-past :
    (m : Map Round) (x : Certificate) (n : PublicKey) (r : Round)
    → (IsLater (Map.lookup n m) r → ⊥)
    → IsLater (Map.lookup n (raise x m)) r
    → ⊥
raise-past m x n r h k = elim (Bool-cases (Certificate.origin x == n)) [
  | inl same ↦
      max-past (Map.lookup n m) (Certificate.round x) r h
        (rw same at (rw (lookup-raise x m n) at k))
  | inr other ↦ h (rw other at (rw (lookup-raise x m n) at k))
]

-- What has been committed for an origin up to a round does not come again.
past-occurrences :
    (m : Map Round) (xs : List Certificate) (r : Round) (n : PublicKey)
    → Ascends m xs
    → (IsLater (Map.lookup n m) r → ⊥)
    → occurrences r n xs ≡ 0
unfolding Ascends occurrences
past-occurrences m [] r n h k = refl
past-occurrences m (x ∷ xs) r n h k =
    let rest = past-occurrences (raise x m) xs r n h.1 (raise-past m x n r k) in
    elim (Bool-cases (Certificate.round x == r && Certificate.origin x == n)) [
      | inl here ↦
          let (round, origin) =
            same-round_origin r (Certificate.round x) n (Certificate.origin x) here in
          absurd (
            k (
              subst (λ (j : PublicKey). IsLater (Map.lookup j m) r) origin
                (subst (λ (q : Round). IsLater (Map.lookup (Certificate.origin x) m) q) round h.0)))
      | inr other ↦ rw other (omega (arith, rest))
    ]

raise-covers :
    (m : Map Round) (x : Certificate)
    → IsLater (Map.lookup (Certificate.origin x) (raise x m)) (Certificate.round x)
    → ⊥
raise-covers m x h =
    let same : (Certificate.origin x == Certificate.origin x) ≡ true = ground arith in
    max-covers (Map.lookup (Certificate.origin x) m) (Certificate.round x)
      (rw same at (rw (lookup-raise x m (Certificate.origin x)) at h))

Ascends-once :
    (m : Map Round) (xs : List Certificate) (r : Round) (n : PublicKey)
    → Ascends m xs
    → occurrences r n xs ≤ 1
unfolding Ascends occurrences
Ascends-once m [] r n h = omega arith
Ascends-once m (x ∷ xs) r n h =
    elim (Bool-cases (Certificate.round x == r && Certificate.origin x == n)) [
      | inl here ↦
          let (round, origin) =
            same-round_origin r (Certificate.round x) n (Certificate.origin x) here in
          let covered =
            past-occurrences (raise x m) xs (Certificate.round x) (Certificate.origin x) h.1
              (raise-covers m x) in
          let none_after =
            subst (λ (j : PublicKey). occurrences r j xs ≡ 0) origin
              (subst (λ (q : Round). occurrences q (Certificate.origin x) xs ≡ 0) round covered) in
          rw here (omega (arith, none_after))
      | inr other ↦ rw other (omega (arith, Ascends-once (raise x m) xs r n h.1))
    ]

-- From its start on the genesis certificates, consensus sends at most one certificate of each round and
-- origin, if none of those that arrive is older than the last committed one of its origin at that
-- time or of the last round of 64 bits.
pub run-once :
    (p : Primitives) (k : Consensus) (cs : List Certificate) (t : State) (xs : List Certificate)
    (r : Round) (n : PublicKey)
    → AreTimely p k cs (new p (Certificate.genesis k.committee))
    → run p k cs (new p (Certificate.genesis k.committee)) ≡ some (t, xs)
    → occurrences r n xs ≤ 1
run-once p k cs t xs r n timely e =
    let s = new p (Certificate.genesis k.committee) in
    let ascends =
      run-Ascends p k cs s t xs (new-IsWell p k.committee) (new-IsFiled p k.committee) timely e in
    Ascends-once s.last_committed xs r n ascends
