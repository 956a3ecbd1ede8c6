-- ===== src/Primary/Proposer/Rounds.antt =====
-- The rounds of the headers that the proposer makes.
use mathlib.Core.Option.{some-injective}
use narwhal_td.Base.{
  ℕ, suc, ◌+◌, ◌^◌, ◌<◌, ◌≤◌, ◌≡◌, refl, Bool, false, not, ◌&&◌, ◌||◌, some, List, [], ◌∷◌, ◌++◌,
  is_empty, All, All-weaken, All-append, arith, add64-eq-add, leb, ltb, if◌then◌else◌, Bool-cases,
  inl, inr, ◌∙◌, subst,
}
use narwhal_td.Base.Options.{>>=-eq-some}
use narwhal_td.Crypto.{PublicKey, Digest, Primitives, SignatureService}
use narwhal_td.Config.{Committee, WorkerId}
use narwhal_td.Base.Map.{Map}
use narwhal_td.Primary.Header
use narwhal_td.Primary.Header.{Header, Round}
use narwhal_td.Primary.Proposer.{
  Proposer, spawn, make_header, Event, from_core, from_workers, timer, receive, propose, step, run,
  collect_payload, collect_parents,
}

-- The rounds of the headers grow from each to the next.
abbrev pub IsIncreasing : List Header → Type 0
IsIncreasing [] = Unit {0}
IsIncreasing (x ∷ xs) = All (λ (y : Header). x.round < y.round) xs × IsIncreasing xs

-- The bound of the headers sent: the current round is free while there are parents for it.
abbrev bound : Proposer → Round
bound s = if is_empty s.last_parents then suc s.round else s.round

record IsReady (name : PublicKey) (s : Proposer) : Type 0 where
  author : s.name ≡ name
  below : All (λ (h : Header). (h.author ≡ name) × (h.round < bound s)) s.sent
  increasing : IsIncreasing s.sent

IsIncreasing-append :
    (xs : List Header) (h : Header)
    → IsIncreasing xs
    → All (λ (x : Header). x.round < h.round) xs
    → IsIncreasing (xs ++ h ∷ [])
IsIncreasing-append [] h k b = (tt, tt)
IsIncreasing-append (x ∷ xs) h k b = (
  All-append (λ (y : Header). x.round < y.round) xs (h ∷ []) k.0 (b.0, tt),
  IsIncreasing-append xs h k.1 b.1,
)

new-round :
    (p : Primitives) (service : SignatureService) (name : PublicKey) (round : Round)
    (payload : Map WorkerId) (parents : List Digest) (h : Header)
    → Header.new p service name round payload parents ≡ some h
    → (h.author ≡ name) × (h.round ≡ round)
unfolding Header.new
new-round p service name round payload parents h e = ground arith

below-bound :
    (name : PublicKey) (n m : Round) (hs : List Header)
    → n ≤ m
    → All (λ (h : Header). (h.author ≡ name) × (h.round < n)) hs
    → All (λ (h : Header). (h.author ≡ name) × (h.round < m)) hs
below-bound name n m hs le b = All-weaken _ _ hs (λ h k. (k.0, omega (arith, k.1, le))) b

make_header-IsReady :
    (p : Primitives) (name : PublicKey) (s t : Proposer)
    → is_empty s.last_parents ≡ false
    → make_header p s ≡ some t
    → IsReady name s
    → IsReady name t
unfolding make_header
make_header-IsReady p name s t ready e k =
    let (h, made, result) =
      >>=-eq-some
        (Header.new p s.signature_service s.name s.round (collect_payload s.digests)
          (collect_parents s.last_parents))
        _ e in
    let (author, round) = new-round p s.signature_service s.name s.round _ _ h made in
    let sent : All (λ (x : Header). (x.author ≡ name) × (x.round < s.round)) s.sent =
      rw ready at k.below in
    rw (← some-injective _ _ result) (record {
      author = k.author;
      below =
          All-append (λ (x : Header). (x.author ≡ name) × (x.round < suc s.round)) s.sent (h ∷ [])
            (below-bound name s.round (suc s.round) s.sent (omega arith) sent)
            ((author ∙ k.author, omega (arith, round)), tt);
      increasing =
          IsIncreasing-append s.sent h k.increasing
            (All-weaken _ _ s.sent (λ x b. omega (arith, b.1, round)) sent);
    })

propose-IsReady :
    (p : Primitives) (name : PublicKey) (expired : Bool) (s t : Proposer)
    → propose p expired s ≡ some t
    → IsReady name s
    → IsReady name t
unfolding propose
propose-IsReady p name expired s t e k =
    let enough = (expired || leb s.header_size s.payload_size) && not (is_empty s.last_parents) in
    elim (Bool-cases enough) [
      | inl due ↦
          let (s', made, result) = >>=-eq-some (make_header p s) _ (rw due at e) in
          let ready = make_header-IsReady p name s s' (ground arith) made k in
          rw (← some-injective _ _ result)
            (record { author = ready.author; below = ready.below; increasing = ready.increasing })
      | inr early ↦ subst (IsReady name) (some-injective _ _ (rw early at e)) k
    ]

-- The rounds that the core announces have a successor in 64 bits.
abbrev pub HasNext : Event → Type 0
HasNext (from_core parents round) = round + 1 < 2 ^ 64
HasNext e = Unit

receive-IsReady :
    (name : PublicKey) (e : Event) (s : Proposer)
    → HasNext e
    → IsReady name s
    → IsReady name (receive e s)
unfolding receive
receive-IsReady name (from_core parents round) s fits k = elim (Bool-cases (ltb round s.round)) [
  | inl old ↦ rw old k
  | inr new ↦ rw new (record {
    author = k.author;
    below =
        below-bound name (bound s) _ s.sent (ground (arith, new, add64-eq-add round 1 fits))
          k.below;
    increasing = k.increasing;
  })
]
receive-IsReady name (from_workers digest worker_id) s fits k = record {
  author = k.author;
  below = k.below;
  increasing = k.increasing;
}
receive-IsReady name timer s fits k = k

run-IsReady :
    (p : Primitives) (name : PublicKey) (inputs : List (Bool × Event)) (s t : Proposer)
    → All (λ i. HasNext i.1) inputs
    → run p inputs s ≡ some t
    → IsReady name s
    → IsReady name t
unfolding run step
run-IsReady p name [] s t fits e k = subst (IsReady name) (some-injective _ _ e) k
run-IsReady p name ((expired, event) ∷ inputs) s t fits e k =
    let (s', stepped, rest) = >>=-eq-some (step p (expired, event) s) _ e in
    let (s'', proposed, received) = >>=-eq-some (propose p expired s) _ stepped in
    let ready =
      receive-IsReady name event s'' fits.0 (propose-IsReady p name expired s s'' proposed k) in
    run-IsReady p name inputs s' t fits.1 rest
      (subst (IsReady name) (some-injective _ _ received) ready)

-- Along any events, of which those from the core announce rounds that have a successor in 64 bits,
-- the headers that a proposer makes bear its name, and their rounds grow from each to the next:
-- it makes at most one header in a round.
pub run-IsIncreasing :
    (p : Primitives) (name : PublicKey) (c : Committee) (service : SignatureService)
    (header_size max_header_delay : ℕ) (inputs : List (Bool × Event)) (t : Proposer)
    → All (λ i. HasNext i.1) inputs
    → run p inputs (spawn p name c service header_size max_header_delay) ≡ some t
    → All (λ (h : Header). h.author ≡ name) t.sent × IsIncreasing t.sent
unfolding spawn
run-IsIncreasing p name c service header_size max_header_delay inputs t fits e =
    let start : IsReady name (spawn p name c service header_size max_header_delay) = record {
      author = refl;
      below = tt;
      increasing = tt;
    } in
    let k =
      run-IsReady p name inputs (spawn p name c service header_size max_header_delay) t fits e
        start in
    (All-weaken _ _ t.sent (λ h b. b.0) k.below, k.increasing)
