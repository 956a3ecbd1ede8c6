-- ===== src/Consensus/State/Filed.antt =====
-- A filed state: its DAG has each certificate under its round and its origin, and none that is older
-- than the last committed one of its origin.
use narwhal_td.Base.{
  ◌+◌, ◌^◌, ◌<◌, ◌≡◌, refl, sym, Bool, true, false, not, ◌&&◌, ◌||◌, Option, none, some, [], ◌∷◌,
  All, add64, leb, ◌==◌, is_empty, if◌then◌else◌, ◌∙◌, Bool-cases, inl, inr,
}
use narwhal_td.Base.Map
use narwhal_td.Base.Map.{Map}
use narwhal_td.Base.Set.{Distinct}
use narwhal_td.Crypto.{Digest, PublicKey}
use narwhal_td.Primary.Header.{Round}
use narwhal_td.Primary.Certificate
use narwhal_td.Primary.Certificate.{Certificate}
use narwhal_td.Consensus.State.{Authorities, Dag, State, retain_dag, clean, update}
use narwhal_td.Consensus.State.Clean.{entry, is_recent, IsWell, update-entry}

abbrev pub AreNamed : Dag → Type 0
AreNamed dag = All (λ (m : Authorities). Distinct (Map.keys m)) (Map.values dag)

pub record IsFiled (s : State) : Type 0 where
  pub named : AreNamed s.dag
  pub filed :
      (r : Round) (n : PublicKey) (d : Digest) (c : Certificate)
      → entry r n s.dag ≡ some (d, c)
      → (Certificate.round c ≡ r) × (Certificate.origin c ≡ n) × (r + 1 < 2 ^ 64)
  pub recent :
      (r : Round) (n : PublicKey) (d : Digest) (c : Certificate)
      → entry r n s.dag ≡ some (d, c)
      → is_recent (Map.lookup n s.last_committed) r ≡ true

pub lookup-named :
    (r : Round) (dag : Dag)
    → AreNamed dag
    → Distinct (Map.keys (Map.or_default [] (Map.lookup r dag)))
unfolding Map.lookup
lookup-named r [] h = tt
lookup-named r ((q, m) ∷ dag) h = elim (Bool-cases (q == r)) [
  | inl here ↦ rw here h.0
  | inr later ↦ rw later (lookup-named r dag h.1)
]

retain_dag-named :
    (name : PublicKey) (round last gc_depth : Round) (dag : Dag)
    → AreNamed dag
    → AreNamed (retain_dag name round last gc_depth dag)
unfolding retain_dag
retain_dag-named name round last gc_depth [] h = tt
retain_dag-named name round last gc_depth ((r, m) ∷ dag) h =
    let p = λ (n : PublicKey). not (n == name) || leb round r in
    elim (Bool-cases (not (is_empty (Map.retain p m)) && leb last (add64 r gc_depth))) [
      | inl kept ↦
          rw kept (Map.retain-Distinct p m h.0, retain_dag-named name round last gc_depth dag h.1)
      | inr gone ↦ rw gone (retain_dag-named name round last gc_depth dag h.1)
    ]

clean-named :
    (m : Map Round) (last gc_depth : Round) (dag : Dag)
    → AreNamed dag
    → AreNamed (clean m last gc_depth dag)
unfolding clean
clean-named [] last gc_depth dag h = h
clean-named ((name, round) ∷ m) last gc_depth dag h =
    clean-named m last gc_depth _ (retain_dag-named name round last gc_depth dag h)

abbrev guarded : Bool → Option (Digest × Certificate) → Option (Digest × Certificate)
guarded b o = if b then o else none

guarded-some :
    (b : Bool) (o : Option (Digest × Certificate)) (x : Digest × Certificate)
    → guarded b o ≡ some x
    → (b ≡ true) × (o ≡ some x)
guarded-some true o x e = (refl, e)
guarded-some false o x e = cc

and-left : (a b : Bool) → (a && b) ≡ true → a ≡ true
and-left true b h = refl
and-left false b h = cc

-- Committing a certificate keeps the DAG filed.
pub update-IsFiled :
    (s : State) (c : Certificate) (gc_depth : Round)
    → IsWell s
    → IsFiled s
    → IsFiled (update s c gc_depth)
update-IsFiled s c gc_depth w f =
    let s' = update s c gc_depth in
    let kept = λ (r : Round) (n : PublicKey).
      is_recent (Map.lookup n s'.last_committed) r
      && leb s'.last_committed_round (add64 r gc_depth) in
    let was =
      λ (r : Round) (n : PublicKey) (d : Digest) (x : Certificate)
          (e : entry r n s'.dag ≡ some (d, x)).
        guarded-some (kept r n) (entry r n s.dag) (d, x)
          (sym (update-entry s c gc_depth r n w) ∙ e) in
    record {
      named = unfold update in clean-named _ _ gc_depth s.dag f.named;
      filed = λ r n d x e. f.filed r n d x (was r n d x e).1;
      recent = λ r n d x e. and-left _ _ (was r n d x e).0;
    }
