-- ===== src/Primary/Proposer.antt =====
-- primary/src/proposer.rs: the task that makes this authority's headers.
pub mod Rounds
pub mod Digests
use narwhal_td.Base.{
  ℕ, suc, ◌+◌, Bool, true, false, not, ◌&&◌, ◌||◌, Option, none, some, List, [], ◌∷◌, ◌++◌,
  is_empty, add64, leb, ltb, if◌then◌else◌,
}
use narwhal_td.Base.Map
use narwhal_td.Base.Map.{Map}
use narwhal_td.Base.Set
use narwhal_td.Base.Options.{◌>>=◌}
use narwhal_td.Base.Sort.{sort_by_key}
use narwhal_td.Crypto
use narwhal_td.Crypto.{PublicKey, Digest, Primitives, SignatureService}
use narwhal_td.Config.{Committee, WorkerId}
use narwhal_td.Primary.Header
use narwhal_td.Primary.Header.{Header, Round}
use narwhal_td.Primary.Certificate
use narwhal_td.Primary.Certificate.{Certificate}

-- `Proposer`; `sent` is what it has sent to the core, oldest first.
pub record Proposer : Type 0 where
  pub name : PublicKey
  pub signature_service : SignatureService
  pub header_size : ℕ
  pub max_header_delay : ℕ
  pub round : Round
  pub last_parents : List Digest
  pub digests : List (Digest × WorkerId)
  pub payload_size : ℕ
  pub sent : List Header

abbrev genesis_digests : Primitives → List Certificate → List Digest
genesis_digests p [] = []
genesis_digests p (x ∷ xs) = Certificate.digest p x ∷ genesis_digests p xs

-- The fields that `Proposer::spawn` starts from.
unfoldable pub spawn : Primitives → PublicKey → Committee → SignatureService → ℕ → ℕ → Proposer
spawn p name c service header_size max_header_delay = record {
  name = name;
  signature_service = service;
  header_size = header_size;
  max_header_delay = max_header_delay;
  round = 1;
  last_parents = genesis_digests p (Certificate.genesis c);
  digests = [];
  payload_size = 0;
  sent = [];
}

insert_all : List (Digest × WorkerId) → Map WorkerId → Map WorkerId
insert_all [] m = m
insert_all ((d, w) ∷ xs) m = insert_all xs (Map.insert d w m)

-- `drain(..).collect()` into a `BTreeMap`, and into a `BTreeSet`.
unfoldable pub collect_payload : List (Digest × WorkerId) → Map WorkerId
unfolding insert_all
collect_payload xs = sort_by_key (λ x. x.0) (insert_all xs [])

abbrev distinct : List Digest → List Digest
distinct [] = []
distinct (x ∷ xs) = Set.insert x (distinct xs)

unfoldable pub collect_parents : List Digest → List Digest
collect_parents xs = sort_by_key (λ x. x) (distinct xs)

-- `make_header`; `none` is a panic of the signature service.
unfoldable pub make_header : Primitives → Proposer → Option Proposer
make_header p s = do
  header ←
      Header.new p s.signature_service s.name s.round (collect_payload s.digests)
        (collect_parents s.last_parents)
  some (record s { last_parents = []; digests = []; sent = s.sent ++ header ∷ [] })

-- What `select!` receives: parents from the core, a digest from our workers, or the timer.
pub data Event : Type 0 where
  from_core : List Digest → Round → Event
  from_workers : Digest → WorkerId → Event
  timer : Event

unfoldable pub receive : Event → Proposer → Proposer
receive (from_core parents round) s =
    if ltb round s.round then s else record s { round = add64 round 1; last_parents = parents }
receive (from_workers digest worker_id) s = record s {
  payload_size = add64 s.payload_size (Crypto.size digest);
  digests = s.digests ++ (digest, worker_id) ∷ [];
}
receive timer s = s

-- The first half of the loop's body: make a header if it is time to.
unfoldable pub propose : Primitives → Bool → Proposer → Option Proposer
propose p timer_expired s =
    let enough_parents = not (is_empty s.last_parents) in
    let enough_digests = leb s.header_size s.payload_size in
    if (timer_expired || enough_digests) && enough_parents
    then (do s' ← make_header p s; some (record s' { payload_size = 0 }))
    else some s

-- One round of the loop: whether the timer has expired, and what is received then.
unfoldable pub step : Primitives → Bool × Event → Proposer → Option Proposer
step p (timer_expired, event) s = do s' ← propose p timer_expired s; some (receive event s')

unfoldable pub run : Primitives → List (Bool × Event) → Proposer → Option Proposer
run p [] s = some s
run p (i ∷ inputs) s = do s' ← step p i s; run p inputs s'
