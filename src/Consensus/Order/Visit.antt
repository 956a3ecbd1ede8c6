-- ===== src/Consensus/Order/Visit.antt =====
-- The fuel of the loop of `order_dag`, against the certificates of the DAG.
use narwhal_td.Base.{
  ℕ, zero, suc, ◌+◌, ◌≤◌, ◌<◌, ◌≡◌, refl, true, false, Option, none, some, List, [], ◌∷◌, ◌++◌,
  arith, length, sub64, add64, leb, select, if◌then◌else◌,
}
use narwhal_td.Base.Map
use narwhal_td.Base.Map.{Map}
use narwhal_td.Base.Set
use narwhal_td.Base.Set.{contains-append}
use narwhal_td.Base.Sort.{sort_by_key}
use narwhal_td.Crypto.{Digest}
use narwhal_td.Primary.Header.{Round}
use narwhal_td.Primary.Certificate
use narwhal_td.Primary.Certificate.{Certificate}
use narwhal_td.Consensus.State.{Authorities, Dag, State}
use narwhal_td.Consensus.Order.{
  find_digest, Visit, push_parent, push_parents, visit_dag, count, order_dag,
}

abbrev digests : Authorities → List Digest
digests [] = []
digests ((name, (d, c)) ∷ m) = d ∷ digests m

abbrev all_digests : Dag → List Digest
all_digests [] = []
all_digests ((r, m) ∷ dag) = digests m ++ all_digests dag

-- How many digests of a list are not in another.
unordered : List Digest → List Digest → ℕ
unordered [] already = 0
unordered (d ∷ ds) already = (if Set.contains d already then 0 else 1) + unordered ds already

unordered-cons-le :
    (ds : List Digest) (d : Digest) (already : List Digest)
    → unordered ds (d ∷ already) ≤ unordered ds already
unfolding unordered Set.contains
unordered-cons-le [] d already = omega arith
unordered-cons-le (x ∷ ds) d already = ground (arith, unordered-cons-le ds d already)

-- A digest of the list that becomes ordered is one less.
unordered-cons :
    (ds : List Digest) (d : Digest) (already : List Digest)
    → Set.contains d ds ≡ true
    → Set.contains d already ≡ false
    → unordered ds (d ∷ already) < unordered ds already
unfolding unordered Set.contains
unordered-cons [] d already h k = cc
unordered-cons (x ∷ ds) d already h k =
    ground (arith, unordered-cons ds d already, unordered-cons-le ds d already)

contains-digests :
    (d : Digest) (m : Authorities) (c : Certificate)
    → find_digest d m ≡ some c
    → Set.contains d (digests m) ≡ true
unfolding find_digest Set.contains
contains-digests d [] c h = cc
contains-digests d ((name, (x, y)) ∷ m) c h = ground (arith, contains-digests d m c)

contains-all_digests :
    (d : Digest) (r : Round) (dag : Dag)
    → Set.contains d (digests (Map.or_default [] (Map.lookup r dag))) ≡ true
    → Set.contains d (all_digests dag) ≡ true
unfolding Map.lookup Set.contains
contains-all_digests d r [] h = cc
contains-all_digests d r ((q, m) ∷ dag) h =
    ground (arith, contains-all_digests d r dag, contains-append d (digests m) (all_digests dag))

unordered-append :
    (xs ys already : List Digest)
    → unordered (xs ++ ys) already ≡ unordered xs already + unordered ys already
unfolding unordered
unordered-append [] ys already = omega arith
unordered-append (x ∷ xs) ys already = omega (arith, unordered-append xs ys already)

unordered-digests : (m : Authorities) → unordered (digests m) [] ≡ length m
unfolding unordered Set.contains
unordered-digests [] = refl
unordered-digests ((name, (d, c)) ∷ m) = omega (arith, unordered-digests m)

length-all_digests : (dag : Dag) → unordered (all_digests dag) [] ≡ count dag
unfolding unordered count Set.contains
length-all_digests [] = refl
length-all_digests ((q, m) ∷ dag) = omega (
  arith,
  unordered-append (digests m) (all_digests dag) [],
  unordered-digests m,
  length-all_digests dag,
)

-- What is left to do: the stack, and the digests of the DAG that were not put on it.
abbrev left : State → Visit → ℕ
left s (buffer, already) = length buffer + unordered (all_digests s.dag) already

push_parent-left :
    (s : State) (d : Digest) (o : Option Certificate) (v : Visit)
    → ((c : Certificate) → o ≡ some c → Set.contains d (all_digests s.dag) ≡ true)
    → left s (push_parent s d o v) ≤ left s v
unfolding push_parent
push_parent-left s d none v h = omega arith
push_parent-left s d (some c) (buffer, already) h =
    ground (arith, unordered-cons (all_digests s.dag) d already (h c refl))

push_parents-left :
    (s : State) (r : Round) (ds : List Digest) (v : Visit)
    → left s (push_parents s (Map.or_default [] (Map.lookup r s.dag)) ds v) ≤ left s v
unfolding push_parents
push_parents-left s r [] v = omega arith
push_parents-left s r (d ∷ ds) v =
    let m = Map.or_default [] (Map.lookup r s.dag) in
    let held = λ (c : Certificate) (e : find_digest d m ≡ some c).
      contains-all_digests d r s.dag (contains-digests d m c e) in
    omega (
      arith,
      push_parents-left s r ds (push_parent s d (find_digest d m) v),
      push_parent-left s d (find_digest d m) v held,
    )

visit_dag-total :
    (fuel : ℕ) (s : State) (v : Visit)
    → left s v < fuel
    → (xs : List Certificate) × (visit_dag fuel s v ≡ some xs)
unfolding visit_dag
visit_dag-total zero s v h = elim h [ ]
visit_dag-total (suc fuel) s ([], already) h = ([], refl)
visit_dag-total (suc fuel) s (x ∷ buffer, already) h =
    let next =
      push_parents-left s (sub64 (Certificate.round x) 1) x.header.parents (buffer, already) in
    let authorities = Map.or_default [] (Map.lookup (sub64 (Certificate.round x) 1) s.dag) in
    let visit = push_parents s authorities x.header.parents (buffer, already) in
    let (xs, e) = visit_dag-total fuel s visit (omega (arith, next, h)) in (x ∷ xs, rw e)

-- `order_dag` returns for every leader and every state: its loop ends within the fuel.
pub order_dag-total :
    (gc_depth : Round) (l : Certificate) (s : State)
    → (xs : List Certificate) × (order_dag gc_depth l s ≡ some xs)
unfolding order_dag
order_dag-total gc_depth l s =
    let (xs, e) =
      visit_dag-total (count s.dag + 2) s (l ∷ [], []) (omega (arith, length-all_digests s.dag)) in
    let kept = select (λ x. leb s.last_committed_round (add64 (Certificate.round x) gc_depth)) xs in
    (sort_by_key Certificate.round kept, rw e)
