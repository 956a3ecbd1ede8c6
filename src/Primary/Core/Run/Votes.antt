-- ===== src/Primary/Core/Run/Votes.antt =====
-- What stands behind the votes that `Core` has sent after any sequence of inputs.
use narwhal_td.Base.{◌≡◌, some, List, All, subst}
use narwhal_td.Crypto.{PublicKey, SignatureService}
use narwhal_td.Config.{Committee}
use narwhal_td.Store.{Puts}
use narwhal_td.Store.Spec.{IsReliable}
use narwhal_td.Primary.Header.{Round}
use narwhal_td.Primary.Platform.{Platform}
use narwhal_td.Primary.Synchronizer.{genesis}
use narwhal_td.Primary.Core.State.{Core, spawn}
use narwhal_td.Primary.Core.Sent
use narwhal_td.Primary.Core.Sent.{P-append}
use narwhal_td.Primary.Core.Justified.{IsJustified, stable}
use narwhal_td.Primary.Core.Justified.Methods.{kept}
use narwhal_td.Primary.Core.Run.{Input, collect, run}
use narwhal_td.Primary.Core.Run.Keeps.{run-Keeps}
use narwhal_td.Primary.Core.Run.Constants.{run-Fixed}

collect-IsJustified :
    (p : Platform) (round : Round) (s : Core)
    → Sent.P (IsJustified p) (stable p) s
    → Sent.P (IsJustified p) (stable p) (collect round s)
unfolding collect
collect-IsJustified p round s h = h

-- Over a database that fails no put and returns what was last put, along any inputs that do not end the
-- task: each vote that the core has sent to another primary bears the id, the round and the author of a
-- header that its store was given, serialized, under that id. The parents of this header are genesis
-- certificates or certificates that the store was given under their digests, each of the round before,
-- which together weigh a quorum of the committee, and each batch of its payload is marked in the store.
pub run-IsJustified :
    (p : Platform) (name : PublicKey) (c : Committee) (db : Puts) (service : SignatureService)
    (gc_depth : Round) (inputs : List Input) (t : Core)
    → IsReliable p.rocksdb
    → run p inputs (spawn p name c db service gc_depth) ≡ some t
    → All (IsJustified p (genesis p c) c t.db) t.sent
unfolding spawn
run-IsJustified p name c db service gc_depth inputs t reliable e =
    let (same, known) = run-Fixed p name c db service gc_depth inputs t e in
    let justified =
      run-Keeps p (kept p reliable) (λ ws s h. P-append (IsJustified p) (stable p) ws s h)
        (collect-IsJustified p) inputs (spawn p name c db service gc_depth) t e tt in
    subst (λ g. All (IsJustified p g c t.db) t.sent) known
      (subst (λ x. All (IsJustified p t.genesis x t.db) t.sent) same justified)
