-- ===== src/Primary/Proposer/Digests.antt =====
-- The digests of batches in the headers that the proposer makes, against those it has received.
use mathlib.Core.Option.{some-injective}
use narwhal_td.Base.{
  ℕ, ◌≡◌, refl, sym, ap, ◌∙◌, Bool, true, false, not, ◌&&◌, ◌||◌, some, List, [], ◌∷◌, ◌++◌, arith,
  is_empty, leb, ltb, ◌==◌, Bool-cases, inl, inr, subst,
}
use narwhal_td.Base.Map
use narwhal_td.Base.Map.{Map, keys-insert}
use narwhal_td.Base.Set
use narwhal_td.Base.Set.{contains-append}
use narwhal_td.Base.Sort.{insert_by, sort_by_key}
use narwhal_td.Base.Options.{>>=-eq-some}
use narwhal_td.Crypto.{PublicKey, Digest, Primitives, SignatureService}
use narwhal_td.Config.{WorkerId}
use narwhal_td.Primary.Header
use narwhal_td.Primary.Header.{Header, Round}
use narwhal_td.Primary.Proposer.{
  Proposer, make_header, Event, from_core, from_workers, timer, receive, propose, step, run,
  collect_payload, insert_all, collect_parents,
}

-- Whether the digest stands in the payload of a header that was made.
unfoldable pub is_proposed : Digest → List Header → Bool
is_proposed d [] = false
is_proposed d (h ∷ hs) = Set.contains d (Map.keys h.payload) || is_proposed d hs

-- Whether the digest was proposed, or waits for the next header.
abbrev pub is_held : Digest → Proposer → Bool
is_held d s = is_proposed d s.sent || Set.contains d (Map.keys s.digests)

-- The digests that the workers send.
abbrev pub digests_of : List (Bool × Event) → List Digest
digests_of [] = []
digests_of ((expired, from_workers d w) ∷ inputs) = d ∷ digests_of inputs
digests_of ((expired, from_core parents round) ∷ inputs) = digests_of inputs
digests_of ((expired, timer) ∷ inputs) = digests_of inputs

is_proposed-append :
    (d : Digest) (xs ys : List Header)
    → is_proposed d (xs ++ ys) ≡ (is_proposed d xs || is_proposed d ys)
unfolding is_proposed
is_proposed-append d [] ys = refl
is_proposed-append d (x ∷ xs) ys = ground (arith, is_proposed-append d xs ys)

or_assoc : (a b c : Bool) → ((a || b) || c) ≡ (a || (b || c))
or_assoc true b c = refl
or_assoc false b c = refl

or_false : (b : Bool) → (b || false) ≡ b
or_false true = refl
or_false false = refl

insert_all-keys :
    (d : Digest) (xs : List (Digest × WorkerId)) (m : Map WorkerId)
    → Set.contains d (Map.keys (insert_all xs m))
      ≡ (Set.contains d (Map.keys xs) || Set.contains d (Map.keys m))
unfolding insert_all Set.contains
insert_all-keys d [] m = refl
insert_all-keys d ((x, w) ∷ xs) m =
    ground (arith, insert_all-keys d xs (Map.insert x w m), keys-insert x d w m)

insert_by-keys :
    (d : Digest) (key : Digest × WorkerId → ℕ) (x : Digest × WorkerId) (m : Map WorkerId)
    → Set.contains d (Map.keys (insert_by key x m)) ≡ (d == x.0 || Set.contains d (Map.keys m))
unfolding insert_by Set.contains
insert_by-keys d key (x, w) [] = refl
insert_by-keys d key (x, w) ((y, v) ∷ m) = ground (arith, insert_by-keys d key (x, w) m)

sort_by_key-keys :
    (d : Digest) (key : Digest × WorkerId → ℕ) (m : Map WorkerId)
    → Set.contains d (Map.keys (sort_by_key key m)) ≡ Set.contains d (Map.keys m)
unfolding sort_by_key Set.contains
sort_by_key-keys d key [] = refl
sort_by_key-keys d key ((x, w) ∷ m) =
    insert_by-keys d key (x, w) (sort_by_key key m)
    ∙ ap (λ b. d == x || b) (sort_by_key-keys d key m)

collect_payload-keys :
    (d : Digest) (xs : List (Digest × WorkerId))
    → Set.contains d (Map.keys (collect_payload xs)) ≡ Set.contains d (Map.keys xs)
unfolding collect_payload Set.contains
collect_payload-keys d xs =
    sort_by_key-keys d (λ x. x.0) (insert_all xs []) ∙ insert_all-keys d xs [] ∙ or_false _

new-payload :
    (p : Primitives) (service : SignatureService) (name : PublicKey) (round : Round)
    (payload : Map WorkerId) (parents : List Digest) (h : Header)
    → Header.new p service name round payload parents ≡ some h
    → h.payload ≡ payload
unfolding Header.new
new-payload p service name round payload parents h e = ground arith

make_header-is_held :
    (p : Primitives) (d : Digest) (s t : Proposer)
    → make_header p s ≡ some t
    → is_held d t ≡ is_held d s
unfolding make_header Set.contains is_proposed
make_header-is_held p d s t e =
    let (h, made, result) =
      >>=-eq-some
        (Header.new p s.signature_service s.name s.round (collect_payload s.digests)
          (collect_parents s.last_parents))
        _ e in
    let payload = new-payload p s.signature_service s.name s.round _ _ h made in
    let joined = is_proposed-append d s.sent (h ∷ []) in
    let keys = ap (λ m. Set.contains d (Map.keys m)) payload ∙ collect_payload-keys d s.digests in
    rw (← some-injective _ _ result) (ground (arith, joined, keys))

propose-is_held :
    (p : Primitives) (d : Digest) (expired : Bool) (s t : Proposer)
    → propose p expired s ≡ some t
    → is_held d t ≡ is_held d s
unfolding propose
propose-is_held p d expired s t e =
    let enough = (expired || leb s.header_size s.payload_size) && not (is_empty s.last_parents) in
    elim (Bool-cases enough) [
      | inl due ↦
          let (s', made, result) = >>=-eq-some (make_header p s) _ (rw due at e) in
          subst (λ (x : Proposer). is_held d x ≡ is_held d s) (some-injective _ _ result)
            (make_header-is_held p d s s' made)
      | inr early ↦
          subst (λ (x : Proposer). is_held d x ≡ is_held d s) (some-injective _ _ (rw early at e))
            refl
    ]

keys-append :
    (d x : Digest) (w : WorkerId) (xs : List (Digest × WorkerId))
    → Set.contains d (Map.keys (xs ++ (x, w) ∷ [])) ≡ (Set.contains d (Map.keys xs) || d == x)
unfolding Set.contains
keys-append d x w [] = or_false (d == x)
keys-append d x w ((y, v) ∷ xs) = ground (arith, keys-append d x w xs)

receive-is_held :
    (d : Digest) (expired : Bool) (e : Event) (s : Proposer)
    → is_held d (receive e s) ≡ (is_held d s || Set.contains d (digests_of ((expired, e) ∷ [])))
unfolding receive Set.contains
receive-is_held d expired (from_core parents round) s = elim (Bool-cases (ltb round s.round)) [
  | inl old ↦ rw old (sym (or_false (is_held d s)))
  | inr new ↦ rw new (sym (or_false (is_held d s)))
]
receive-is_held d expired (from_workers x w) s = ground (arith, keys-append d x w s.digests)
receive-is_held d expired timer s = sym (or_false (is_held d s))

digests_of-cons :
    (d : Digest) (i : Bool × Event) (inputs : List (Bool × Event))
    → Set.contains d (digests_of (i ∷ inputs))
      ≡ (Set.contains d (digests_of (i ∷ [])) || Set.contains d (digests_of inputs))
unfolding Set.contains
digests_of-cons d (expired, from_core parents round) inputs = refl
digests_of-cons d (expired, from_workers x w) inputs = ground arith
digests_of-cons d (expired, timer) inputs = refl

-- Along any events that end in no panic, no digest of a batch is lost or made up: a digest stands in a header
-- that the proposer has made, or waits for the next one, exactly if it did before or a worker has sent it.
pub run-is_held :
    (p : Primitives) (d : Digest) (inputs : List (Bool × Event)) (s t : Proposer)
    → run p inputs s ≡ some t
    → is_held d t ≡ (is_held d s || Set.contains d (digests_of inputs))
unfolding run step Set.contains
run-is_held p d [] s t e =
    subst (λ (x : Proposer). is_held d x ≡ (is_held d s || false)) (some-injective _ _ e)
      (sym (or_false (is_held d s)))
run-is_held p d ((expired, event) ∷ inputs) s t e =
    let (s', stepped, rest) = >>=-eq-some (step p (expired, event) s) _ e in
    let (s'', proposed, received) = >>=-eq-some (propose p expired s) _ stepped in
    let later = run-is_held p d inputs s' t rest in
    let now = receive-is_held d expired event s'' in
    let same = ap (is_held d) (sym (some-injective _ _ received)) in
    let before = propose-is_held p d expired s s'' proposed in
    let joined = digests_of-cons d (expired, event) inputs in
    let one = Set.contains d (digests_of ((expired, event) ∷ [])) in
    let others = Set.contains d (digests_of inputs) in
    later
    ∙ ap (λ b. b || others) (same ∙ now ∙ ap (λ b. b || one) before)
    ∙ or_assoc (is_held d s) one others
    ∙ ap (λ b. is_held d s || b) (sym joined)
