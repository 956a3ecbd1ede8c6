-- ===== src/Worker/Synchronizer/Pending.antt =====
-- Which batches the worker's synchronizer requests.
use narwhal_td.Base.{
  ℕ, ◌≡◌, refl, sym, subst, Bool, true, false, not, All-append, All-weaken, ◌||◌, Option, none,
  some, List, [], ◌∷◌, ◌++◌, All, arith, ◌==◌, Bool-cases, inl, inr,
}
use narwhal_td.Base.Map
use narwhal_td.Base.Set
use narwhal_td.Base.Set.{Distinct}
use narwhal_td.Base.Results.{ok, err, panic}
use narwhal_td.Crypto.{Digest, to_vec}
use narwhal_td.Store.{Puts, Rocksdb, StoreResult, Value}
use narwhal_td.Worker.Synchronizer.{Request, Synchronizer, wait_for, request_one, request_all}

abbrev pub is_some : Option Request → Bool
is_some none = false
is_some (some x) = true

abbrev pub is_pending : Digest → Synchronizer → Bool
is_pending d s = is_some (Map.lookup d s.pending)

-- Not pending, and not in the store.
abbrev pub IsMissing : Rocksdb → Puts → Synchronizer → Digest → Type 0
IsMissing r db s d = (is_pending d s ≡ false) × (r.get db (to_vec d) ≡ ok none)

wait_for-pending :
    (now : ℕ) (d x : Digest) (s : Synchronizer)
    → is_pending x (wait_for now d s) ≡ (d == x || is_pending x s)
unfolding wait_for
wait_for-pending now d x s = ground (
  arith,
  Map.lookup-insert d x (record { round = s.round; channel = s.channels; timestamp = now })
      s.pending,
)

request_one-pending :
    (now : ℕ) (d x : Digest) (o : Option Request) (found : StoreResult (Option Value))
    (s : Synchronizer)
    → is_pending x s ≡ true
    → is_pending x (request_one now d o found s).0 ≡ true
unfolding request_one
request_one-pending now d x (some q) found s h = h
request_one-pending now d x none (ok none) s h = ground (arith, wait_for-pending now d x s)
request_one-pending now d x none (ok (some v)) s h = ground (arith, wait_for-pending now d x s)
request_one-pending now d x none (err e) s h = h
request_one-pending now d x none panic s h = h

-- What one digest adds to the request.
request_one-IsMissing :
    (r : Rocksdb) (db : Puts) (now : ℕ) (d : Digest) (o : Option Request)
    (found : StoreResult (Option Value)) (s : Synchronizer)
    → Map.lookup d s.pending ≡ o
    → r.get db (to_vec d) ≡ found
    → let one = (request_one now d o found s).1 in
      All (λ x. IsMissing r db s x × (is_pending x (request_one now d o found s).0 ≡ true)) one
      × Distinct one
unfolding request_one Set.contains
request_one-IsMissing r db now d (some q) found s p g = (tt, tt)
request_one-IsMissing r db now d none (ok none) s p g =
    ((((rw p refl, g), ground (arith, wait_for-pending now d d s)), tt), (refl, tt))
request_one-IsMissing r db now d none (ok (some v)) s p g = (tt, tt)
request_one-IsMissing r db now d none (err e) s p g = (tt, tt)
request_one-IsMissing r db now d none panic s p g = (tt, tt)

All-contains :
    (P : Digest → Type 0) (d : Digest) (xs : List Digest)
    → All P xs
    → Set.contains d xs ≡ true
    → P d
unfolding Set.contains
All-contains P d [] h c = cc
All-contains P d (x ∷ xs) h c = elim (Bool-cases (d == x)) [
  | inl same ↦ subst P (ground (arith, same)) h.0
  | inr other ↦ All-contains P d xs h.1 (rw other at c)
]

request_all-pending :
    (r : Rocksdb) (db : Puts) (now : ℕ) (x : Digest) (ds : List Digest) (s : Synchronizer)
    → is_pending x s ≡ true
    → is_pending x (request_all r db now ds s).0 ≡ true
unfolding request_all
request_all-pending r db now x [] s h = h
request_all-pending r db now x (d ∷ ds) s h =
    request_all-pending r db now x ds _
      (request_one-pending now d x (Map.lookup d s.pending) (r.get db (to_vec d)) s h)

append-Distinct :
    (xs ys : List Digest)
    → Distinct xs
    → Distinct ys
    → All (λ x. Set.contains x ys ≡ false) xs
    → Distinct (xs ++ ys)
append-Distinct [] ys dx dy h = dy
append-Distinct (x ∷ xs) ys dx dy h =
    (ground (arith, Set.contains-append x xs ys, dx.0, h.0), append-Distinct xs ys dx.1 dy h.1)

-- The digests that a request for `ds` names, and what becomes of them.
abbrev pub Requested : Rocksdb → Puts → Synchronizer → Synchronizer → List Digest → Type 0
Requested r db s t missing =
    All (λ d. IsMissing r db s d × (is_pending d t ≡ true)) missing × Distinct missing

not_pending : (b c : Bool) → (b ≡ true → c ≡ true) → c ≡ false → b ≡ false
not_pending true c f h = cc (f refl)
not_pending false c f h = refl

join-Requested :
    (r : Rocksdb) (db : Puts) (s s' s'' : Synchronizer) (one more : List Digest)
    → ((x : Digest) → is_pending x s ≡ true → is_pending x s' ≡ true)
    → ((x : Digest) → is_pending x s' ≡ true → is_pending x s'' ≡ true)
    → Requested r db s s' one
    → Requested r db s' s'' more
    → Requested r db s s'' (one ++ more)
join-Requested r db s s' s'' one more first later h k = (
  All-append _ one more (All-weaken _ _ one (λ x q. (q.0, later x q.1)) h.0) (
      All-weaken _ _ more
        (λ x q. ((not_pending (is_pending x s) (is_pending x s') (first x) q.0.0, q.0.1), q.1))
        k.0),
  append-Distinct one more h.1 k.1 (
      All-weaken _ _ one
        (λ x q.
          not_pending (Set.contains x more) (not (is_pending x s'))
            (λ c. rw (All-contains _ x more k.0 c).0.0 refl) (rw q.1 refl))
        h.0),
)

-- When the primary asks for batches, the worker requests each of them at most once, and only those that
-- are neither in the store nor requested already; each one requested is pending afterwards.
pub request_all-Requested :
    (r : Rocksdb) (db : Puts) (now : ℕ) (ds : List Digest) (s : Synchronizer)
    → Requested r db s (request_all r db now ds s).0 (request_all r db now ds s).1
unfolding request_all
request_all-Requested r db now [] s = (tt, tt)
request_all-Requested r db now (d ∷ ds) s =
    let o = Map.lookup d s.pending in
    let found = r.get db (to_vec d) in
    let s' = (request_one now d o found s).0 in
    join-Requested r db s s' (request_all r db now ds s').0 (request_one now d o found s).1
      (request_all r db now ds s').1 (λ x. request_one-pending now d x o found s)
      (λ x. request_all-pending r db now x ds s')
      (request_one-IsMissing r db now d o found s refl refl) (request_all-Requested r db now ds s')

request_one-other :
    (r : Rocksdb) (db : Puts) (now : ℕ) (d x : Digest) (o : Option Request)
    (found : StoreResult (Option Value)) (s : Synchronizer)
    → (d == x) ≡ false
    → IsMissing r db s x
    → IsMissing r db (request_one now d o found s).0 x
unfolding request_one
request_one-other r db now d x (some q) found s other h = h
request_one-other r db now d x none (ok none) s other h =
    (ground (arith, wait_for-pending now d x s, h.0), h.1)
request_one-other r db now d x none (ok (some v)) s other h =
    (ground (arith, wait_for-pending now d x s, h.0), h.1)
request_one-other r db now d x none (err e) s other h = h
request_one-other r db now d x none panic s other h = h

missing_entry : (o : Option Request) → is_some o ≡ false → o ≡ none
missing_entry none h = refl
missing_entry (some q) h = cc

request_one-itself :
    (now : ℕ) (d : Digest) (o : Option Request) (found : StoreResult (Option Value))
    (s : Synchronizer)
    → is_some o ≡ false
    → found ≡ ok none
    → Set.contains d (request_one now d o found s).1 ≡ true
unfolding request_one Set.contains
request_one-itself now d o found s h g = rw (missing_entry o h, g) (ground arith)

or-true : (b : Bool) → (b || true) ≡ true
or-true true = refl
or-true false = refl

-- When the primary asks for batches, the worker requests each of them that is neither in the store nor
-- requested already.
pub request_all_complete :
    (r : Rocksdb) (db : Puts) (now : ℕ) (d : Digest) (ds : List Digest) (s : Synchronizer)
    → Set.contains d ds ≡ true
    → IsMissing r db s d
    → Set.contains d (request_all r db now ds s).1 ≡ true
unfolding request_all Set.contains
request_all_complete r db now d [] s c h = cc
request_all_complete r db now d (x ∷ ds) s c h =
    let o = Map.lookup x s.pending in
    let found = r.get db (to_vec x) in
    let one = request_one now x o found s in
    let rest = (request_all r db now ds one.0).1 in
    let joined = Set.contains-append d one.1 rest in
    elim (Bool-cases (x == d)) [
      | inl same ↦
          let equal : x ≡ d = ground (arith, same) in
          let own : Set.contains d one.1 ≡ true =
            subst
              (λ (y : Digest).
                Set.contains d
                  (request_one now y (Map.lookup y s.pending) (r.get db (to_vec y)) s).1
                ≡ true)
              (sym equal)
              (request_one-itself now d (Map.lookup d s.pending) (r.get db (to_vec d)) s h.0 h.1) in
          rw joined (rw own refl)
      | inr other ↦
          let later : Set.contains d ds ≡ true = ground (arith, c, other) in
          let asked =
            request_all_complete r db now d ds one.0 later
              (request_one-other r db now x d o found s other h) in
          rw joined (rw asked (or-true (Set.contains d one.1)))
    ]
