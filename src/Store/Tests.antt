-- ===== src/Store/Tests.antt =====
-- The theorem on the store, at two waits for a key that is then written.
use narwhal_td.Base.{◌≡◌, refl, List, [], ◌∷◌}
use narwhal_td.Base.Results.{ok}
use narwhal_td.Store.{Rocksdb, StoreCommand, write, read, notify_read, init, run}
use narwhal_td.Store.Spec.{last_written, spec_run, nothing, run-refines}

abbrev database : Rocksdb
database = record { get = λ db key. ok (last_written key db) }

abbrev commands : List StoreCommand
commands =
    notify_read (1 ∷ []) 4
    ∷ notify_read (2 ∷ []) 5
    ∷ notify_read (1 ∷ []) 6
    ∷ write (1 ∷ []) (8 ∷ [])
    ∷ read (1 ∷ []) 7
    ∷ []

run-refines_example : (run database init commands).1 ≡ spec_run nothing commands
run-refines_example = run-refines database (λ db key. refl) commands
