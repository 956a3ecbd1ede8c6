-- ===== src/Consensus/Run/Filed.antt =====
-- What the steps of `run` in consensus/src/lib.rs do to the entries of the state.
use mathlib.Core.Option.{some-injective}
use narwhal_td.Base.{
  ◌+◌, ◌^◌, ◌≤◌, ◌<◌, ◌≡◌, refl, sym, ap, ◌∙◌, Bool, true, false, some, List, [], ◌∷◌, All, arith,
  ltb, ◌==◌, ◌&&◌, if◌then◌else◌, Bool-cases, inl, inr, ◌⊎◌,
}
use narwhal_td.Base.Map
use narwhal_td.Base.Set.{Distinct}
use narwhal_td.Base.Map.{
  Map, lookup-update, lookup-insert, update-Distinct, insert-Distinct, values-insert,
}
use narwhal_td.Crypto.{Digest, PublicKey, Primitives}
use narwhal_td.Primary.Header.{Round}
use narwhal_td.Primary.Certificate
use narwhal_td.Primary.Certificate.{Certificate}
use narwhal_td.Consensus.State.{Authorities, State, update}
use narwhal_td.Consensus.State.Clean.{entry, is_recent, IsWell, update-IsWell}
use narwhal_td.Consensus.State.Rounds.{update-rounds}
use narwhal_td.Consensus.State.Filed.{AreNamed, IsFiled, lookup-named, update-IsFiled}
use narwhal_td.Consensus.Order.Once.{same-round_origin}
use narwhal_td.Consensus.Order.Ascends.{raise_all}
use narwhal_td.Consensus.Run.{add_certificate, update_all}

-- A certificate that is not older than the last committed one of its origin, and whose round is not
-- the last one of 64 bits.
abbrev pub is_timely : State → Certificate → Bool
is_timely s c =
    is_recent (Map.lookup (Certificate.origin c) s.last_committed) (Certificate.round c)
    && ltb (Certificate.round c + 1) (2 ^ 64)

pub add_certificate-IsWell :
    (p : Primitives) (c : Certificate) (s : State) → IsWell s → IsWell (add_certificate p c s)
unfolding add_certificate
add_certificate-IsWell p c s w = record {
  dag_keys = update-Distinct _ _ _ s.dag w.dag_keys;
  names = w.names;
  highest = w.highest;
}

add_certificate-entry :
    (p : Primitives) (c : Certificate) (s : State) (r : Round) (n : PublicKey)
    → entry r n (add_certificate p c s).dag ≡ (
        if Certificate.round c == r && Certificate.origin c == n
        then some (Certificate.digest p c, c)
        else entry r n s.dag)
unfolding add_certificate
add_certificate-entry p c s r n =
    let m = Map.or_default [] (Map.lookup (Certificate.round c) s.dag) in
    ground (
      arith,
      lookup-update (Certificate.round c) r []
          (Map.insert (Certificate.origin c) (Certificate.digest p c, c)) s.dag,
      lookup-insert (Certificate.origin c) n (Certificate.digest p c, c) m,
    )

added-named :
    (p : Primitives) (c : Certificate) (s : State)
    → IsFiled s
    → AreNamed (add_certificate p c s).dag
unfolding add_certificate Map.update
added-named p c s f =
    values-insert (λ (m : Authorities). Distinct (Map.keys m)) (Certificate.round c) _ s.dag
      (insert-Distinct (Certificate.origin c) _ _
        (lookup-named (Certificate.round c) s.dag f.named))
      f.named

added-cases :
    (p : Primitives) (c : Certificate) (s : State) (r : Round) (n : PublicKey) (d : Digest)
    (x : Certificate)
    → entry r n (add_certificate p c s).dag ≡ some (d, x)
    → ((Certificate.round c ≡ r) × (Certificate.origin c ≡ n) × (c ≡ x))
      ⊎ (entry r n s.dag ≡ some (d, x))
added-cases p c s r n d x e =
    let found = sym (add_certificate-entry p c s r n) ∙ e in
    elim (Bool-cases (Certificate.round c == r && Certificate.origin c == n)) [
      | inl same ↦
          let (round, origin) =
            same-round_origin r (Certificate.round c) n (Certificate.origin c) same in
          inl (
            round,
            origin,
            ap (λ (y : Digest × Certificate). y.1) (some-injective _ _ (rw same at found)),
          )
      | inr other ↦ inr (rw other at found)
    ]

timely-parts :
    (b : Bool) (r : Round) → (b && ltb (r + 1) (2 ^ 64)) ≡ true → (b ≡ true) × (r + 1 < 2 ^ 64)
timely-parts true r h = (refl, ground (arith, h))
timely-parts false r h = cc

-- A timely certificate keeps the state filed.
pub add_certificate-IsFiled :
    (p : Primitives) (c : Certificate) (s : State)
    → is_timely s c ≡ true
    → IsFiled s
    → IsFiled (add_certificate p c s)
unfolding add_certificate
add_certificate-IsFiled p c s timely f =
    let (recent, fits) =
      timely-parts
        (is_recent (Map.lookup (Certificate.origin c) s.last_committed) (Certificate.round c))
        (Certificate.round c) timely in
    record {
      named = added-named p c s f;
      filed = λ r n d x e. elim (added-cases p c s r n d x e) [
        | inl (round, origin, same) ↦
            (rw (← same) round, rw (← same) origin, omega (arith, fits, round))
        | inr old ↦ f.filed r n d x old
      ];
      recent = λ r n d x e. elim (added-cases p c s r n d x e) [
        | inl (round, origin, same) ↦ rw (← round) (rw (← origin) recent)
        | inr old ↦ f.recent r n d x old
      ];
    }

pub update_all-IsWell :
    (gc_depth : Round) (s : State) (xs : List Certificate)
    → IsWell s
    → IsWell (update_all gc_depth s xs)
unfolding update_all
update_all-IsWell gc_depth s [] w = w
update_all-IsWell gc_depth s (x ∷ xs) w =
    update_all-IsWell gc_depth (update s x gc_depth) xs (update-IsWell s x gc_depth w)

pub update_all-IsFiled :
    (gc_depth : Round) (s : State) (xs : List Certificate)
    → IsWell s
    → IsFiled s
    → IsFiled (update_all gc_depth s xs)
unfolding update_all
update_all-IsFiled gc_depth s [] w f = f
update_all-IsFiled gc_depth s (x ∷ xs) w f =
    update_all-IsFiled gc_depth (update s x gc_depth) xs (update-IsWell s x gc_depth w)
      (update-IsFiled s x gc_depth w f)

pub update_all-raise_all :
    (gc_depth : Round) (s : State) (xs : List Certificate)
    → (update_all gc_depth s xs).last_committed ≡ raise_all s.last_committed xs
unfolding update_all update raise_all
update_all-raise_all gc_depth s [] = refl
update_all-raise_all gc_depth s (x ∷ xs) = update_all-raise_all gc_depth (update s x gc_depth) xs

pub update_all-bound :
    (gc_depth b : Round) (s : State) (xs : List Certificate)
    → IsWell s
    → s.last_committed_round ≤ b
    → All (λ x. Certificate.round x ≤ b) xs
    → (update_all gc_depth s xs).last_committed_round ≤ b
unfolding update_all
update_all-bound gc_depth b s [] w h k = h
update_all-bound gc_depth b s (x ∷ xs) w h k =
    let (raised, moved) = update-rounds s x gc_depth (Certificate.origin x) w in
    update_all-bound gc_depth b (update s x gc_depth) xs (update-IsWell s x gc_depth w)
      (ground (arith, raised, h, k.0)) k.1
