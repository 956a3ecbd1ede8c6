-- ===== src/Consensus/State.antt =====
-- `State` of consensus/src/lib.rs: the DAG and what has been committed of it.
pub mod Clean
pub mod Rounds
pub mod Filed
pub mod Genesis
use narwhal_td.Base.{
  ℕ, Bool, not, ◌&&◌, ◌||◌, Option, none, some, List, [], ◌∷◌, is_empty, add64, leb, ltb, ◌==◌,
  if◌then◌else◌,
}
use narwhal_td.Base.Map
use narwhal_td.Base.Map.{Map}
use narwhal_td.Crypto.{Digest, PublicKey, Primitives}
use narwhal_td.Primary.Header.{Round}
use narwhal_td.Primary.Certificate
use narwhal_td.Primary.Certificate.{Certificate}

-- The certificates of a round, by their origin.
abbrev pub Authorities : Type 0
Authorities = Map (Digest × Certificate)

abbrev pub Dag : Type 0
Dag = Map Authorities

pub record State : Type 0 where
  pub last_committed_round : Round
  pub last_committed : Map Round
  pub dag : Dag

abbrev pub max : ℕ → ℕ → ℕ
max a b = if ltb a b then b else a

-- `collect::<HashMap<_, _>>()`: a later certificate of an origin replaces an earlier one.
collect_genesis : Primitives → Authorities → List Certificate → Authorities
collect_genesis p m [] = m
collect_genesis p m (x ∷ xs) =
    collect_genesis p (Map.insert (Certificate.origin x) (Certificate.digest p x, x) m) xs

genesis_rounds : Authorities → Map Round
genesis_rounds [] = []
genesis_rounds ((x, (d, y)) ∷ m) = (x, Certificate.round y) ∷ genesis_rounds m

-- `State::new`
unfoldable pub new : Primitives → List Certificate → State
unfolding collect_genesis genesis_rounds
new p genesis =
    let authorities = collect_genesis p [] genesis in
    record {
      last_committed_round = 0;
      last_committed = genesis_rounds authorities;
      dag = (0, authorities) ∷ [];
    }

-- `values().max()`
unfoldable pub max_value : Map Round → Round
max_value [] = 0
max_value ((name, r) ∷ m) = max (max_value m) r

-- The call of `dag.retain` for one authority and its last committed round.
unfoldable pub retain_dag : PublicKey → Round → Round → Round → Dag → Dag
retain_dag name round last gc_depth [] = []
retain_dag name round last gc_depth ((r, authorities) ∷ dag) =
    let rest = retain_dag name round last gc_depth dag in
    let kept = Map.retain (λ n. not (n == name) || leb round r) authorities in
    if not (is_empty kept) && leb last (add64 r gc_depth) then (r, kept) ∷ rest else rest

unfoldable pub clean : Map Round → Round → Round → Dag → Dag
clean [] last gc_depth dag = dag
clean ((name, round) ∷ rest) last gc_depth dag =
    clean rest last gc_depth (retain_dag name round last gc_depth dag)

-- `entry(origin).and_modify(|r| max(r, round)).or_insert(round)`
raised : Option Round → Round → Round
raised none round = round
raised (some r) round = max r round

unfoldable pub raise : Certificate → Map Round → Map Round
unfolding raised
raise c m =
    Map.insert (Certificate.origin c)
      (raised (Map.lookup (Certificate.origin c) m) (Certificate.round c)) m

-- `State::update`
unfoldable pub update : State → Certificate → Round → State
update s c gc_depth =
    let last_committed = raise c s.last_committed in
    let last = max_value last_committed in
    record {
      last_committed_round = last;
      last_committed = last_committed;
      dag = clean last_committed last gc_depth s.dag;
    }
