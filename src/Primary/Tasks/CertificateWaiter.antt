-- ===== src/Primary/Tasks/CertificateWaiter.antt =====
-- primary/src/certificate_waiter.rs: holds certificates back until their parents are stored.
pub mod Count
use mathlib.Core.Option.{some-injective, none-ne-some}
use narwhal_td.Base.{
  ℕ, zero, suc, ◌+◌, ◌≡◌, refl, subst, Bool, true, false, not, ◌&&◌, Option, none, some, List, [],
  ◌∷◌, ◌++◌, map, arith,
}
use narwhal_td.Base.Options.{◌>>=◌, >>=-eq-some}
use narwhal_td.Crypto.{to_vec}
use narwhal_td.Store.{Key}
use narwhal_td.Primary.Header.{Header}
use narwhal_td.Primary.Certificate.{Certificate}

-- `waiter`: the keys that it waits for, and the certificate that it delivers.
pub record Wait : Type 0 where
  pub keys : List Key
  pub deliver : Certificate

-- The local variable of the loop, and what has been sent to the core, oldest first.
pub record CertificateWaiter : Type 0 where
  pub waiting : List Wait
  pub sent : List Certificate

unfoldable pub spawn : CertificateWaiter
spawn = record { waiting = []; sent = [] }

unfoldable pub wait_for : Certificate → Wait
wait_for certificate = record {
  keys = map to_vec certificate.header.parents;
  deliver = certificate;
}

-- What `select!` receives: a certificate of the synchronizer, or the future at a place in `waiting`, with
-- whether the store answered all its reads.
pub data Event : Type 0 where
  from_synchronizer : Certificate → Event
  finished : ℕ → Bool → Event

-- The future at a place, and the others.
unfoldable pub take_out : ℕ → List Wait → Option (Wait × List Wait)
take_out i [] = none
take_out zero (w ∷ ws) = some (w, ws)
take_out (suc i) (w ∷ ws) = do (x, rest) ← take_out i ws; some (x, w ∷ rest)

-- The loop's body; a storage failure panics, and so does, in the model, a future that is not there: `none`.
unfoldable pub step : Event → CertificateWaiter → Option CertificateWaiter
step (from_synchronizer certificate) s =
    some (record s { waiting = s.waiting ++ wait_for certificate ∷ [] })
step (finished i false) s = none
step (finished i true) s = do
  (w, rest) ← take_out i s.waiting
  some (record { waiting = rest; sent = s.sent ++ w.deliver ∷ [] })

unfoldable pub run : List Event → CertificateWaiter → Option CertificateWaiter
run [] s = some s
run (e ∷ events) s = do s' ← step e s; run events s'
