-- ===== src/Primary/Core/State.antt =====
-- The fields of `Core`, what its methods send, and the form of a method: it may return, fail or
-- panic, and leaves the fields as they are then.
-- Sending on a channel succeeds here; the receiving tasks live as long as this one.
use narwhal_td.Base.{List, [], ◌∷◌, ◌++◌, map}
use narwhal_td.Base.Map
use narwhal_td.Base.Map.{Map}
use narwhal_td.Base.Results.{ok, err, panic}
use narwhal_td.Crypto.{PublicKey, Digest, SignatureService}
use narwhal_td.Config
use narwhal_td.Config.{Committee, SocketAddr, PrimaryAddresses}
use narwhal_td.Store.{Puts}
use narwhal_td.Primary.Error.{DagResult}
use narwhal_td.Primary.Header.{Header, Round, default_header}
use narwhal_td.Primary.Certificate.{Certificate}
use narwhal_td.Primary.Aggregators.{VotesAggregator, CertificatesAggregator, new_votes}
use narwhal_td.Primary.Platform.{Platform, PrimaryMessage, WaiterMessage}
use narwhal_td.Primary.Synchronizer

-- The handle of a message that the network resends until it is acknowledged or cancelled.
abbrev pub CancelHandler : Type 0
CancelHandler = SocketAddr × PrimaryMessage

-- What leaves the task: to the network, and on its channels to other tasks.
pub data Effect : Type 0 where
  to_network : SocketAddr → PrimaryMessage → Effect
  to_header_waiter : WaiterMessage → Effect
  to_certificate_waiter : Certificate → Effect
  to_proposer : List Digest → Round → Effect
  to_consensus : Certificate → Effect

-- `Core` with the fields of its `Synchronizer`; `sent` is what has left the task, oldest first.
pub record Core : Type 0 where
  pub name : PublicKey
  pub committee : Committee
  pub db : Puts
  pub genesis : List (Digest × Certificate)
  pub signature_service : SignatureService
  pub gc_depth : Round
  pub gc_round : Round
  pub last_voted : Map (List PublicKey)
  pub processing : Map (List Digest)
  pub current_header : Header
  pub votes_aggregator : VotesAggregator
  pub certificates_aggregators : Map CertificatesAggregator
  pub cancel_handlers : Map (List CancelHandler)
  pub sent : List Effect

-- The fields that `Core::spawn` and `Synchronizer::new` start from.
unfoldable pub spawn : Platform → PublicKey → Committee → Puts → SignatureService → Round → Core
spawn p name committee db service gc_depth = record {
  name = name;
  committee = committee;
  db = db;
  genesis = Synchronizer.genesis p committee;
  signature_service = service;
  gc_depth = gc_depth;
  gc_round = 0;
  last_voted = [];
  processing = [];
  current_header = default_header;
  votes_aggregator = new_votes;
  certificates_aggregators = [];
  cancel_handlers = [];
  sent = [];
}

abbrev pub Exec : Type 0 → Type 0
Exec A = Core → DagResult A × Core

unfoldable pub continue : {A B : Type 0} → (A → Exec B) → DagResult A → Exec B
continue f (ok a) s = f a s
continue f (err e) s = (err e, s)
continue f panic s = (panic, s)

infixl 5 ◌>>=◌ ◌>>◌
unfoldable pub ◌>>=◌ : {A B : Type 0} → Exec A → (A → Exec B) → Exec B
unfolding continue
◌>>=◌ m f s = continue f (m s).0 (m s).1

abbrev pub ◌>>◌ : {A B : Type 0} → Exec A → Exec B → Exec B
m >> k = m >>= λ _. k

unfoldable pub pure : {A : Type 0} → A → Exec A
pure a s = (ok a, s)

unfoldable pub raise : {A : Type 0} → DagResult A → Exec A
raise r s = (r, s)

-- A result that is computed from the fields and changes none.
unfoldable pub query : {A : Type 0} → (Core → DagResult A) → Exec A
query f s = (f s, s)

unfoldable pub modify : (Core → Core) → Exec Unit
modify f s = (ok tt, f s)

abbrev pub expected : {A : Type 0} → DagResult A → DagResult A
expected (ok a) = ok a
expected (err e) = panic
expected panic = panic

-- `.expect(…)` on the result of a method.
unfoldable pub expect : {A : Type 0} → Exec A → Exec A
expect m s = (expected (m s).0, (m s).1)

unfoldable pub emit : Effect → Exec Unit
emit e s = (ok tt, record s { sent = s.sent ++ e ∷ [] })

-- `cancel_handlers.entry(round).or_insert_with(Vec::new).extend(handlers)`
abbrev pub keep_handlers : Round → List CancelHandler → Core → Core
keep_handlers round handlers s = record s {
  cancel_handlers = Map.update round [] (λ hs. hs ++ handlers) s.cancel_handlers;
}

-- `network.send(address, …)` and the handler kept under the round.
unfoldable pub send : Round → SocketAddr → PrimaryMessage → Exec Unit
send round address message s = (
  ok tt,
  keep_handlers round ((address, message) ∷ [])
      (record s { sent = s.sent ++ to_network address message ∷ [] }),
)

abbrev pub primaries : Core → List SocketAddr
primaries s = map (λ x. x.1.primary_to_primary) (Config.others_primaries s.committee s.name)

-- `network.broadcast(addresses, …)` to the other primaries, and the handlers kept under the round.
unfoldable pub broadcast : Round → PrimaryMessage → Exec Unit
broadcast round message s = (
  ok tt,
  keep_handlers round (map (λ address. (address, message)) (primaries s))
      (record s { sent = s.sent ++ map (λ address. to_network address message) (primaries s) }),
)
