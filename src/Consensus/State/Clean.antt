-- ===== src/Consensus/State/Clean.antt =====
-- What `State::update` keeps of the DAG, and how it moves the last committed rounds.
use native.Mathlib.Decide.{ℕ_discrete}
use narwhal_td.Base.{
  ◌≡◌, refl, Bool, true, false, not, ◌&&◌, ◌||◌, Option, none, some, [], ◌∷◌, arith, is_empty,
  add64, leb, ◌==◌, if◌then◌else◌,
}
use narwhal_td.Base.Map
use narwhal_td.Base.Map.{
  Map, lookup-insert, lookup-retain, lookup-absent, lookup-empty, insert-Distinct, retain-Distinct,
}
use narwhal_td.Base.Set
use narwhal_td.Base.Set.{Distinct}
use narwhal_td.Crypto.{Digest, PublicKey}
use narwhal_td.Primary.Header.{Round}
use narwhal_td.Primary.Certificate.{Certificate}
use narwhal_td.Consensus.State.{Dag, State, max_value, retain_dag, clean, raise, update}

-- The entry of the DAG for a round and an origin.
abbrev pub entry : Round → PublicKey → Dag → Option (Digest × Certificate)
entry r n dag = Map.lookup n (Map.or_default [] (Map.lookup r dag))

-- Whether a round is not before the last committed one, if there is one.
abbrev pub is_recent : Option Round → Round → Bool
is_recent none r = true
is_recent (some round) r = leb round r

abbrev kept_at : PublicKey → Round → Round → Round → Round → PublicKey → Bool
kept_at name round last gc_depth r n =
    (not (n == name) || leb round r) && leb last (add64 r gc_depth)

module _ (name : PublicKey) (round last gc_depth : Round) where
  keys-retain_dag :
      (r : Round) (dag : Dag)
      → Set.contains r (Map.keys dag) ≡ false
      → Set.contains r (Map.keys (retain_dag name round last gc_depth dag)) ≡ false
  unfolding retain_dag Set.contains
  keys-retain_dag r [] h = refl
  keys-retain_dag r ((q, m) ∷ dag) h = ground (arith, keys-retain_dag r dag)

  retain_dag-Distinct :
      (dag : Dag)
      → Distinct (Map.keys dag)
      → Distinct (Map.keys (retain_dag name round last gc_depth dag))
  unfolding retain_dag
  retain_dag-Distinct [] d = tt
  retain_dag-Distinct ((q, m) ∷ dag) d =
      ground (arith, retain_dag-Distinct dag d.1, keys-retain_dag q dag d.0)

  retain_dag-entry :
      (r : Round) (n : PublicKey) (dag : Dag)
      → Distinct (Map.keys dag)
      → entry r n (retain_dag name round last gc_depth dag)
        ≡ (if kept_at name round last gc_depth r n then entry r n dag else none)
  unfolding retain_dag Map.lookup
  retain_dag-entry r n [] d = ground arith
  retain_dag-entry r n ((q, m) ∷ dag) d =
      let p = λ (n : PublicKey). not (n == name) || leb round q in
      let gone = lookup-absent r (retain_dag name round last gc_depth dag) in
      elim (ℕ_discrete q r) [
        | yes e ↦ ground (
          arith,
          e,
          lookup-retain p n m,
          lookup-empty n (Map.retain p m),
          gone,
          keys-retain_dag r dag,
          d.0,
        )
        | no e ↦ ground (arith, e, retain_dag-entry r n dag d.1)
      ]

-- Whether a round is not before any of the rounds that the list has for a name.
abbrev recent_in : Map Round → PublicKey → Round → Bool
recent_in [] n r = true
recent_in ((name, round) ∷ m) n r = (not (n == name) || leb round r) && recent_in m n r

recent_in-lookup :
    (m : Map Round) (n : PublicKey) (r : Round)
    → Distinct (Map.keys m)
    → recent_in m n r ≡ is_recent (Map.lookup n m) r
unfolding Map.lookup
recent_in-lookup [] n r d = refl
recent_in-lookup ((name, round) ∷ m) n r d =
    ground (arith, recent_in-lookup m n r d.1, lookup-absent name m d.0)

clean-entry :
    (m : Map Round) (last gc_depth r : Round) (n : PublicKey) (dag : Dag)
    → Distinct (Map.keys dag)
    → entry r n (clean m last gc_depth dag) ≡ (
        if recent_in m n r && (is_empty m || leb last (add64 r gc_depth))
        then entry r n dag
        else none)
unfolding clean
clean-entry [] last gc_depth r n dag d = refl
clean-entry ((name, round) ∷ m) last gc_depth r n dag d = ground (
  arith,
  clean-entry m last gc_depth r n (retain_dag name round last gc_depth dag)
      (retain_dag-Distinct name round last gc_depth dag d),
  retain_dag-entry name round last gc_depth r n dag d,
)

clean-Distinct :
    (m : Map Round) (last gc_depth : Round) (dag : Dag)
    → Distinct (Map.keys dag)
    → Distinct (Map.keys (clean m last gc_depth dag))
unfolding clean
clean-Distinct [] last gc_depth dag d = d
clean-Distinct ((name, round) ∷ m) last gc_depth dag d =
    clean-Distinct m last gc_depth _ (retain_dag-Distinct name round last gc_depth dag d)

raise-not-empty : (c : Certificate) (m : Map Round) → is_empty (raise c m) ≡ false
unfolding raise Map.insert
raise-not-empty c [] = refl
raise-not-empty c ((j, r) ∷ m) = ground arith

-- The state is well formed: each key stands once, and the last committed round is the highest of the
-- authorities'.
pub record IsWell (s : State) : Type 0 where
  pub dag_keys : Distinct (Map.keys s.dag)
  pub names : Distinct (Map.keys s.last_committed)
  pub highest : s.last_committed_round ≡ max_value s.last_committed

-- A state is well-formed when its DAG has distinct rounds, its last committed rounds have distinct
-- names, and the last committed round of the whole is the highest of them. Committing a
-- certificate keeps it so.
pub update-IsWell :
    (s : State) (c : Certificate) (gc_depth : Round) → IsWell s → IsWell (update s c gc_depth)
unfolding update raise
update-IsWell s c gc_depth w = record {
  dag_keys = clean-Distinct _ _ gc_depth s.dag w.dag_keys;
  names = insert-Distinct _ _ s.last_committed w.names;
  highest = refl;
}

-- In a well-formed state, committing a certificate keeps an entry of the DAG exactly if its round is
-- not before the last one committed of its origin, by then, and within the garbage collection depth
-- of the last committed round; it adds none.
pub update-entry :
    (s : State) (c : Certificate) (gc_depth r : Round) (n : PublicKey)
    → IsWell s
    → let s' = update s c gc_depth in
      entry r n s'.dag ≡ (
        if is_recent (Map.lookup n s'.last_committed) r
          && leb s'.last_committed_round (add64 r gc_depth)
        then entry r n s.dag
        else none)
unfolding update
update-entry s c gc_depth r n w =
    let m = raise c s.last_committed in
    ground (
      arith,
      clean-entry m (max_value m) gc_depth r n s.dag w.dag_keys,
      recent_in-lookup m n r (update-IsWell s c gc_depth w).names,
      raise-not-empty c s.last_committed,
    )
