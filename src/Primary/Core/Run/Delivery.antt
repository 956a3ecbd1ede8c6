-- ===== src/Primary/Core/Run/Delivery.antt =====
-- What `Core` has handed to consensus after any sequence of inputs.
use narwhal_td.Base.{◌≡◌, some, List, All, subst}
use narwhal_td.Crypto.{PublicKey, SignatureService}
use narwhal_td.Config.{Committee}
use narwhal_td.Store.{Puts}
use narwhal_td.Store.Spec.{IsReliable}
use narwhal_td.Primary.Header.{Round}
use narwhal_td.Primary.Platform.{Platform}
use narwhal_td.Primary.Synchronizer.{genesis}
use narwhal_td.Primary.Core.State.{Core, spawn}
use narwhal_td.Primary.Core.Sent.{P-append}
use narwhal_td.Primary.Core.Delivery.{IsBacked, E, P, stable}
use narwhal_td.Primary.Core.Delivery.Methods.{kept}
use narwhal_td.Primary.Core.Run.{Input, collect, run}
use narwhal_td.Primary.Core.Run.Constants.{run-Fixed}
use narwhal_td.Primary.Core.Run.Keeps.{run-Keeps}

collect-IsBacked : (p : Platform) (round : Round) (s : Core) → P p s → P p (collect round s)
unfolding collect
collect-IsBacked p round s h = h

-- Over a database that fails no put and returns what was last put, along any inputs that do not end the
-- task: the store was given each certificate that the core has sent to consensus, serialized, under its
-- digest, and each of its parents is that of a genesis certificate or a key under which the store has a
-- value.
pub run-IsBacked :
    (p : Platform) (name : PublicKey) (c : Committee) (db : Puts) (service : SignatureService)
    (gc_depth : Round) (inputs : List Input) (t : Core)
    → IsReliable p.rocksdb
    → run p inputs (spawn p name c db service gc_depth) ≡ some t
    → All (IsBacked p (genesis p c) t.db) t.sent
unfolding spawn
run-IsBacked p name c db service gc_depth inputs t reliable e =
    let (same, known) = run-Fixed p name c db service gc_depth inputs t e in
    subst (λ g. All (IsBacked p g t.db) t.sent) known
      (run-Keeps p (kept p reliable) (λ ws s h. P-append (E p) (stable p) ws s h)
        (collect-IsBacked p) inputs (spawn p name c db service gc_depth) t e tt)
