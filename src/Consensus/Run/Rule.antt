-- ===== src/Consensus/Run/Rule.antt =====
-- The commit rule of `run` in consensus/src/lib.rs: when anything is committed at all.
use mathlib.Core.Option.{some-injective}
use narwhal_td.Base.{
  ◌+◌, ◌-◌, ◌%◌, ◌^◌, ◌≤◌, ◌<◌, ◌≡◌, refl, ap, ◌∙◌, true, not, ◌||◌, Option, none, some, List, [],
  ◌∷◌, All, arith, sub64, leb, ltb, ◌==◌, Bool-cases, Option-cases, inl, inr,
}
use narwhal_td.Base.Map
use narwhal_td.Base.Set.{Distinct}
use narwhal_td.Base.Members.{IsIn}
use narwhal_td.Base.Options.{>>=-eq-some}
use narwhal_td.Crypto.{Digest, PublicKey, Primitives}
use narwhal_td.Config.{validity_threshold}
use narwhal_td.Config.Quorum.{weight}
use narwhal_td.Primary.Header.{Round}
use narwhal_td.Primary.Certificate
use narwhal_td.Primary.Certificate.{Certificate}
use narwhal_td.Consensus.State.{Authorities, Dag, State, new}
use narwhal_td.Consensus.State.Clean.{IsWell, entry}
use narwhal_td.Consensus.State.Filed.{IsFiled, lookup-named}
use narwhal_td.Consensus.State.Genesis.{new-IsWell, new-IsFiled}
use narwhal_td.Consensus.Leader.{elect, leader}
use narwhal_td.Consensus.Order.Leaders.{get_leader-entry}
use narwhal_td.Consensus.Run.{
  Consensus, add_certificate, support, try_commit, elect_leader, process, run,
}
use narwhal_td.Consensus.Run.Support.{IsSupporter, support_sound}
use narwhal_td.Consensus.Run.Filed.{is_timely, add_certificate-IsWell, add_certificate-IsFiled}
use narwhal_td.Consensus.Run.Heads.{commit-IsIn}
use narwhal_td.Consensus.Run.Once.{AreTimely, run-Commits}

-- The certificate of the leader of round `r - 2` is in the DAG, and distinct authorities that weigh the
-- validity threshold, f + 1, have a certificate of round `r - 1` there with it among its parents. The
-- leader's certificate is among those that are sent.
pub record IsSupported (k : Consensus) (r : Round) (dag : Dag) (out : List Certificate)
    : Type 0 where
  pub name : PublicKey
  pub digest : Digest
  pub certificate : Certificate
  pub elected : elect k.committee (r - 2) ≡ some name
  pub held : entry (r - 2) name dag ≡ some (digest, certificate)
  pub supporters : List PublicKey
  pub distinct : Distinct supporters
  pub behind : All (IsSupporter digest (Map.or_default [] (Map.lookup (r - 1) dag))) supporters
  pub enough : validity_threshold k.committee ≤ weight k.committee supporters
  pub sent : IsIn certificate out

abbrev committed : Option (State × List Certificate) → List Certificate
committed none = []
committed (some (s, xs)) = xs

no_output :
    (o : Option (State × List Certificate)) {x : Certificate} {xs : List Certificate}
    → committed o ≡ []
    → committed o ≡ x ∷ xs
    → ⊥
no_output o h k = cc

-- The code's own test on the stake, in a filed DAG.
supported :
    (k : Consensus) (r : Round) (s : State) (name : PublicKey) (digest : Digest)
    (certificate : Certificate) (children : Authorities) (out : List Certificate)
    → IsFiled s
    → elect k.committee (r - 2) ≡ some name
    → entry (r - 2) name s.dag ≡ some (digest, certificate)
    → Map.lookup (r - 1) s.dag ≡ some children
    → validity_threshold k.committee ≤ support k.committee digest children
    → IsIn certificate out
    → IsSupported k r s.dag out
supported k r s name digest certificate children out f elected held known enough sent =
    let m = Map.or_default [] (Map.lookup (r - 1) s.dag) in
    let same : m ≡ children = ap (Map.or_default []) known in
    let (supporters, distinct, behind, weighed) =
      support_sound k.committee digest m (lookup-named (r - 1) s.dag f.named)
        (λ n d x e. (f.filed (r - 1) n d x e).1) in
    record {
      name = name;
      digest = digest;
      certificate = certificate;
      elected = elected;
      held = held;
      supporters = supporters;
      distinct = distinct;
      behind = behind;
      enough = omega (arith, enough, weighed, ap (support k.committee digest) same);
      sent = sent;
    }

elect_leader-IsSupported :
    (k : Consensus) (r : Round) (s t : State) (x : Certificate) (xs : List Certificate)
    → IsWell s
    → IsFiled s
    → s.last_committed_round < r - 2
    → r + k.gc_depth < 2 ^ 64
    → elect_leader k r s ≡ some (t, x ∷ xs)
    → IsSupported k r s.dag (x ∷ xs)
unfolding elect_leader try_commit leader
elect_leader-IsSupported k r s t x xs w f later fits e =
    let (found, asked, rest) = >>=-eq-some (leader k.committee (r - 2) s.dag) _ e in
    let (name, elected, got) = >>=-eq-some (elect k.committee (r - 2)) _ asked in
    elim (Option-cases found) [
      | inl missing ↦ absurd (no_output (some (s, [])) refl (ap committed (rw missing at rest)))
      | inr ((digest, certificate), held) ↦
          let (children, known, next) =
            >>=-eq-some (Map.lookup (r - 1) s.dag) _ (rw held at rest) in
          elim (Bool-cases
            (ltb (support k.committee digest children) (validity_threshold k.committee))) [
              | inl low ↦ absurd (no_output (some (s, [])) refl (ap committed (rw low at next)))
              | inr enough ↦
                  let entered =
                    get_leader-entry name (Map.lookup (r - 2) s.dag) (digest, certificate)
                      (some-injective _ _ got ∙ held) in
                  let round = (f.filed (r - 2) name digest certificate entered).0 in
                  supported k r s name digest certificate children (x ∷ xs) f elected entered known
                    (ground (arith, enough))
                    (commit-IsIn k certificate s t (x ∷ xs) w f (omega (arith, later, fits))
                      (omega (arith, later, round)) (omega (arith, later, round, fits))
                      (rw enough at next))
            ]
    ]

process-IsSupported :
    (p : Primitives) (k : Consensus) (c : Certificate) (s t : State) (x : Certificate)
    (xs : List Certificate)
    → IsWell (add_certificate p c s)
    → IsFiled (add_certificate p c s)
    → sub64 (Certificate.round c) 1 + k.gc_depth < 2 ^ 64
    → process p k c s ≡ some (t, x ∷ xs)
    → let r = sub64 (Certificate.round c) 1 in
      (r % 2 ≡ 0)
      × (4 ≤ r)
      × (s.last_committed_round < r - 2)
      × IsSupported k r (add_certificate p c s).dag (x ∷ xs)
unfolding process add_certificate
process-IsSupported p k c s t x xs w f fits e =
    let r = sub64 (Certificate.round c) 1 in
    elim (Bool-cases (not (r % 2 == 0) || ltb r 4)) [
      | inl skipped ↦
          absurd
            (no_output (some (add_certificate p c s, [])) refl (ap committed (rw skipped at e)))
      | inr kept ↦ elim (Bool-cases (leb (r - 2) s.last_committed_round)) [
        | inl done ↦ absurd (
            no_output (some (add_certificate p c s, [])) refl
              (ap committed (rw done at (rw kept at e))))
        | inr ahead ↦ (
          ground (arith, kept),
          ground (arith, kept),
          ground (arith, ahead),
          elect_leader-IsSupported k r (add_certificate p c s) t x xs w f (ground (arith, ahead))
              fits (rw ahead at (rw kept at e)),
        )
      ]
    ]

-- After a run from the start on the genesis certificates: when the next certificate makes consensus
-- commit anything, the round before its own, `r`, is even and at least four, round `r - 2` is later than
-- the last committed round, its leader's certificate is in the DAG, and distinct authorities that weigh
-- the validity threshold, f + 1, have certificates of round `r - 1` in the DAG with the leader's among
-- their parents, and the leader's certificate is among those that are sent; provided that no certificate
-- that has arrived was older than the last committed one of its origin at that time or of the last round
-- of 64 bits, and that `r` plus the gc depth fits 64 bits.
pub run-IsSupported :
    (p : Primitives) (k : Consensus) (cs : List Certificate) (c : Certificate) (s t : State)
    (ys : List Certificate) (x : Certificate) (xs : List Certificate)
    → AreTimely p k cs (new p (Certificate.genesis k.committee))
    → run p k cs (new p (Certificate.genesis k.committee)) ≡ some (s, ys)
    → is_timely s c ≡ true
    → sub64 (Certificate.round c) 1 + k.gc_depth < 2 ^ 64
    → process p k c s ≡ some (t, x ∷ xs)
    → let r = sub64 (Certificate.round c) 1 in
      (r % 2 ≡ 0)
      × (4 ≤ r)
      × (s.last_committed_round < r - 2)
      × IsSupported k r (add_certificate p c s).dag (x ∷ xs)
run-IsSupported p k cs c s t ys x xs timely before now fits e =
    let start = new p (Certificate.genesis k.committee) in
    let reached =
      run-Commits p k cs start s ys (new-IsWell p k.committee) (new-IsFiled p k.committee) timely
        before in
    process-IsSupported p k c s t x xs (add_certificate-IsWell p c s reached.well)
      (add_certificate-IsFiled p c s now reached.filed) fits e
