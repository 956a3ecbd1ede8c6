-- ===== src/Primary/HeaderWaiter/Tests.antt =====
-- The theorems on the two waiters of the primary, at a header and a certificate whose parents are missing.
use narwhal_td.Base.{
  ◌+◌, ◌<◌, ◌≡◌, refl, true, Bool, Option, none, some, List, [], ◌∷◌, arith, ◌==◌, be_bytes,
  le_bytes, of_be_bytes,
}
use narwhal_td.Base.Map
use narwhal_td.Crypto
use narwhal_td.Config
use narwhal_td.Primary.Header
use narwhal_td.Primary.Header.{Header}
use narwhal_td.Primary.Certificate.{Certificate}
use narwhal_td.Primary.Platform.{WaiterMessage, sync_parents}
use narwhal_td.Primary.HeaderWaiter
use narwhal_td.Primary.HeaderWaiter.{
  HeaderWaiter, spawn, Event, command, finished, delivered, step, contains_key, header_of,
}
use narwhal_td.Primary.HeaderWaiter.Pool.{Tracks, IsPossible, step-Tracks, spawn-Tracks, find_wait}
use narwhal_td.Primary.Tasks.CertificateWaiter
use narwhal_td.Primary.Tasks.CertificateWaiter.Count.{count, count_waits, received, run-count}
use narwhal_td.Samples.{committee, header, certificate}

abbrev start : HeaderWaiter
start = spawn 1 committee 50 5_000 3

abbrev missing : WaiterMessage
missing = sync_parents (17 ∷ 18 ∷ []) (header 2 60 (17 ∷ 18 ∷ []))

abbrev state_of : Option HeaderWaiter → HeaderWaiter
state_of none = start
state_of (some s) = s

-- The command comes when consensus is at round 55.
abbrev after : HeaderWaiter
after = state_of (step 1_000 55 (command missing) start)

stepped : step 1_000 55 (command missing) start ≡ some after
unfolding step Map.lookup spawn HeaderWaiter.start HeaderWaiter.start_parents HeaderWaiter.send_all
    HeaderWaiter.parent_effects HeaderWaiter.request_parents HeaderWaiter.wait_for Map.insert
    Config.primary
stepped = refl

waits : Tracks after
waits =
    step-Tracks 1_000 55 (command missing) start after tt stepped
      (spawn-Tracks 1 committee 50 5_000 3)

abbrev end : Event
end = finished 0 (delivered (header 2 60 (17 ∷ 18 ∷ [])))

abbrev ended : HeaderWaiter
ended = state_of (step 1_100 56 end after)

stepped_again : step 1_100 56 end after ≡ some ended
unfolding step HeaderWaiter.finish
stepped_again = refl

possible : IsPossible after end
unfolding step Map.lookup spawn HeaderWaiter.start HeaderWaiter.start_parents HeaderWaiter.send_all
    HeaderWaiter.parent_effects HeaderWaiter.request_parents HeaderWaiter.wait_for Map.insert
    Config.primary HeaderWaiter.cleanup HeaderWaiter.collect HeaderWaiter.finish
    HeaderWaiter.without HeaderWaiter.remove_all Map.remove find_wait Header.digest
    Header.hashed_bytes Crypto.finalize be_bytes le_bytes of_be_bytes Map.retain_values
possible = (_, refl, refl)

step-Tracks_example : Tracks ended
step-Tracks_example = step-Tracks 1_100 56 end after ended possible stepped_again waits

due : after.gc_depth < 55
unfolding step Map.lookup spawn HeaderWaiter.start HeaderWaiter.start_parents HeaderWaiter.send_all
    HeaderWaiter.parent_effects HeaderWaiter.request_parents HeaderWaiter.wait_for Map.insert
    Config.primary HeaderWaiter.cleanup HeaderWaiter.collect
due = omega arith

-- The second of two certificates is delivered.
abbrev events : List CertificateWaiter.Event
events =
    CertificateWaiter.from_synchronizer (certificate 1 5 (11 ∷ []) [])
    ∷ CertificateWaiter.from_synchronizer (certificate 2 5 (12 ∷ []) [])
    ∷ CertificateWaiter.finished 1 true
    ∷ []

abbrev waiter_of : Option CertificateWaiter.CertificateWaiter → CertificateWaiter.CertificateWaiter
waiter_of none = CertificateWaiter.spawn
waiter_of (some s) = s

abbrev waiter : CertificateWaiter.CertificateWaiter
waiter = waiter_of (CertificateWaiter.run events CertificateWaiter.spawn)

ran : CertificateWaiter.run events CertificateWaiter.spawn ≡ some waiter
unfolding CertificateWaiter.run CertificateWaiter.step CertificateWaiter.take_out
    CertificateWaiter.spawn
ran = refl

abbrev of_second : Certificate → Bool
of_second c = c.header.author == 2

run-count_example :
    count of_second waiter.sent + count_waits of_second waiter.waiting
    ≡ count of_second CertificateWaiter.spawn.sent
      + count_waits of_second CertificateWaiter.spawn.waiting
      + count of_second (received of_second events)
run-count_example = run-count of_second events CertificateWaiter.spawn waiter ran
