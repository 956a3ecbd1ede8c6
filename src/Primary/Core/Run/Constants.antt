-- ===== src/Primary/Core/Run/Constants.antt =====
-- The fields of `Core` that no input changes.
use narwhal_td.Base.{◌≡◌, refl, some, List}
use narwhal_td.Crypto.{PublicKey, SignatureService}
use narwhal_td.Config.{Committee}
use narwhal_td.Store.{Puts}
use narwhal_td.Primary.Header.{Round}
use narwhal_td.Primary.Platform.{Platform}
use narwhal_td.Primary.Synchronizer.{genesis}
use narwhal_td.Primary.Core.State.{Core, spawn}
use narwhal_td.Primary.Core.Fixed
use narwhal_td.Primary.Core.Run.{Input, collect, run}
use narwhal_td.Primary.Core.Run.Keeps.{run-Keeps}

pub run-Fixed :
    (p : Platform) (name : PublicKey) (c : Committee) (db : Puts) (service : SignatureService)
    (gc_depth : Round) (inputs : List Input) (t : Core)
    → run p inputs (spawn p name c db service gc_depth) ≡ some t
    → (t.committee ≡ c) × (t.genesis ≡ genesis p c)
unfolding spawn collect
run-Fixed p name c db service gc_depth inputs t e =
    run-Keeps p (Fixed.kept p c (genesis p c)) (λ ws s h. h) (λ r s h. h) inputs
      (spawn p name c db service gc_depth) t e (refl, refl)
