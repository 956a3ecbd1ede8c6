-- ===== src/Worker/Synchronizer/Requests.antt =====
-- The digests that `Synchronizer` of worker/src/synchronizer.rs requests from another worker.
use narwhal_td.Base.{
  ℕ, All-weaken, ◌≡◌, ◌↔◌, sym, ap, ◌∙◌, subst, true, ◌||◌, Option, none, some, List, [], ◌∷◌, All,
  arith, ◌==◌, Bool-cases, inl, inr,
}
use narwhal_td.Base.Map
use narwhal_td.Base.Set
use narwhal_td.Base.Set.{Distinct}
use narwhal_td.Base.Results.{ok, err, panic}
use narwhal_td.Crypto.{Digest, to_vec}
use narwhal_td.Store.{Puts, Rocksdb, StoreResult, Value}
use narwhal_td.Worker.Synchronizer.{Synchronizer, Request, request_one, request_all}
use narwhal_td.Worker.Synchronizer.Pending.{
  IsMissing, is_pending, request_all-Requested, request_all_complete,
}

All-contains :
    (P : Digest → Type 0) (d : Digest) (xs : List Digest)
    → All P xs
    → Set.contains d xs ≡ true
    → P d
unfolding Set.contains
All-contains P d [] h c = cc
All-contains P d (x ∷ xs) h c = elim (Bool-cases (d == x)) [
  | inl same ↦ let equal : x ≡ d = ground (arith, same) in subst P equal h.0
  | inr other ↦ All-contains P d xs h.1 (rw other at c)
]

request_one-asked :
    (now : ℕ) (d x : Digest) (o : Option Request) (found : StoreResult (Option Value))
    (s : Synchronizer)
    → Set.contains d (request_one now x o found s).1 ≡ true
    → (d == x) ≡ true
unfolding request_one Set.contains
request_one-asked now d x (some q) found s c = cc
request_one-asked now d x none (ok none) s c = ground (arith, c)
request_one-asked now d x none (ok (some v)) s c = cc
request_one-asked now d x none (err e) s c = cc
request_one-asked now d x none panic s c = cc

request_all-asked :
    (r : Rocksdb) (db : Puts) (now : ℕ) (d : Digest) (ds : List Digest) (s : Synchronizer)
    → Set.contains d (request_all r db now ds s).1 ≡ true
    → Set.contains d ds ≡ true
unfolding request_all Set.contains
request_all-asked r db now d [] s c = c
request_all-asked r db now d (x ∷ ds) s c =
    let one = request_one now x (Map.lookup x s.pending) (r.get db (to_vec x)) s in
    let rest = (request_all r db now ds one.0).1 in
    let joined = Set.contains-append d one.1 rest in
    elim (Bool-cases (Set.contains d one.1)) [
      | inl own ↦ ground (arith, request_one-asked now d x _ _ s own)
      | inr other ↦
          let later : Set.contains d rest ≡ true =
            sym (joined ∙ ap (λ b. b || Set.contains d rest) other) ∙ c in
          ground (arith, request_all-asked r db now d ds one.0 later)
    ]

-- When the primary asks for batches, the worker requests exactly those of them that are neither pending nor
-- in the store, each once, and each one requested is pending afterwards.
pub request_all_exact :
    (r : Rocksdb) (db : Puts) (now : ℕ) (ds : List Digest) (s : Synchronizer)
    → Distinct (request_all r db now ds s).1
      × ((d : Digest)
          → (Set.contains d (request_all r db now ds s).1 ≡ true)
            ↔ ((Set.contains d ds ≡ true) × IsMissing r db s d))
      × All (λ d. is_pending d (request_all r db now ds s).0 ≡ true) (request_all r db now ds s).1
request_all_exact r db now ds s =
    let (each, once) = request_all-Requested r db now ds s in
    (
      once,
      λ d. (
        λ c. (request_all-asked r db now d ds s c, (All-contains _ d _ each c).0),
        λ h. request_all_complete r db now d ds s h.0 h.1,
      ),
      All-weaken _ _ _ (λ d h. h.1) each,
    )
