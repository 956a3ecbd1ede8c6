-- ===== src/Store/Spec.antt =====
-- A specification of store/src/lib.rs: the last value of each key, and who waits for which key.
use narwhal_td.Base.{
  ◌≡◌, refl, ◌∙◌, ap, Option, none, some, List, [], ◌∷◌, ◌++◌, map, arith, if◌then◌else◌,
}
use narwhal_td.Base.Results.{ok}
use narwhal_td.Store.{
  Key, Value, Puts, Rocksdb, Sender, StoreCommand, write, read, notify_read, Reply, read_reply,
  notify_reply, State, init, key_eq, waiting, notify, handle, run,
}
use narwhal_td.Store.Obligations.{
  key_eq-same, key_eq-false, IsSingle, waiting-push_back, waiting-remove, push_back-IsSingle,
  remove-IsSingle,
}

-- The last value written under a key.
unfoldable pub last_written : Key → Puts → Option Value
last_written k [] = none
last_written k ((j, v) ∷ db) = if key_eq j k then some v else last_written k db

-- No put fails, and a get returns what was last put.
abbrev pub IsReliable : Rocksdb → Type 0
IsReliable r = (db : Puts) (k : Key) → r.get db k ≡ ok (last_written k db)

-- The values written, and who waits for which key, in the order of arrival.
pub record Spec : Type 0 where
  pub values : Puts
  pub waiters : List (Key × Sender)

unfoldable pub senders_of : Key → List (Key × Sender) → List Sender
senders_of k [] = []
senders_of k ((j, s) ∷ ws) = if key_eq j k then s ∷ senders_of k ws else senders_of k ws

unfoldable pub without : Key → List (Key × Sender) → List (Key × Sender)
without k [] = []
without k ((j, s) ∷ ws) = if key_eq j k then without k ws else (j, s) ∷ without k ws

unfoldable pub spec_notify : Key → Sender → Option Value → Spec → Spec × List Reply
spec_notify k s none a = (record a { waiters = a.waiters ++ (k, s) ∷ [] }, [])
spec_notify k s (some v) a = (a, notify_reply s (ok v) ∷ [])

unfoldable pub spec_handle : Spec → StoreCommand → Spec × List Reply
spec_handle a (write k v) = (
  record { values = (k, v) ∷ a.values; waiters = without k a.waiters },
  map (λ s. notify_reply s (ok v)) (senders_of k a.waiters),
)
spec_handle a (read k s) = (a, read_reply s (ok (last_written k a.values)) ∷ [])
spec_handle a (notify_read k s) = spec_notify k s (last_written k a.values) a

unfoldable pub spec_run : Spec → List StoreCommand → List Reply
spec_run a [] = []
spec_run a (c ∷ cs) = let (a', replies) = spec_handle a c in replies ++ spec_run a' cs

senders_of-append :
    (k j : Key) (s : Sender) (ws : List (Key × Sender))
    → senders_of k (ws ++ (j, s) ∷ [])
      ≡ (if key_eq j k then senders_of k ws ++ s ∷ [] else senders_of k ws)
unfolding senders_of
senders_of-append k j s [] = ground arith
senders_of-append k j s ((i, t) ∷ ws) = ground (arith, senders_of-append k j s ws)

senders_of-without :
    (k j : Key) (ws : List (Key × Sender))
    → senders_of k (without j ws) ≡ (if key_eq j k then [] else senders_of k ws)
unfolding senders_of without
senders_of-without k j [] = ground arith
senders_of-without k j ((i, t) ∷ ws) =
    ground (arith, senders_of-without k j ws, key_eq-same i j k, key_eq-false i j k)

-- The state of the task shows the specification's: the obligations of each key are its waiters.
pub record Shows (s : State) (a : Spec) : Type 0 where
  pub values : s.db ≡ a.values
  pub single : IsSingle s.obligations
  pub waiters : (k : Key) → waiting k s.obligations ≡ senders_of k a.waiters

notify-Shows :
    (k : Key) (x : Sender) (o : Option Value) (s : State) (a : Spec)
    → Shows s a
    → Shows (notify k x (ok o) s).0 (spec_notify k x o a).0
      × ((notify k x (ok o) s).1 ≡ (spec_notify k x o a).1)
unfolding notify spec_notify
notify-Shows k x none s a h = (
  record {
    values = h.values;
    single = push_back-IsSingle k x s.obligations h.single;
    waiters = λ j. ground (
      arith,
      waiting-push_back j k x s.obligations,
      senders_of-append j k x a.waiters,
      h.waiters j,
    );
  },
  refl,
)
notify-Shows k x (some v) s a h = (h, refl)

module _ (r : Rocksdb) (reliable : IsReliable r) where
  handle-Shows :
      (s : State) (a : Spec) (c : StoreCommand)
      → Shows s a
      → Shows (handle r s c).0 (spec_handle a c).0 × ((handle r s c).1 ≡ (spec_handle a c).1)
  unfolding handle spec_handle
  handle-Shows s a (write k v) h = (
    record {
      values = ap (λ db. (k, v) ∷ db) h.values;
      single = remove-IsSingle k s.obligations h.single;
      waiters = λ j. ground (
        arith,
        waiting-remove j k s.obligations h.single,
        senders_of-without j k a.waiters,
        h.waiters j,
      );
    },
    ap (map (λ x. notify_reply x (ok v))) (h.waiters k),
  )
  handle-Shows s a (read k x) h = (h, rw (reliable s.db k, h.values) refl)
  handle-Shows s a (notify_read k x) h =
      let found : r.get s.db k ≡ ok (last_written k a.values) =
        reliable s.db k ∙ ap (λ db. ok (last_written k db)) h.values in
      rw found (notify-Shows k x (last_written k a.values) s a h)

  run-Shows :
      (s : State) (a : Spec) (cs : List StoreCommand) → Shows s a → (run r s cs).1 ≡ spec_run a cs
  unfolding run spec_run
  run-Shows s a [] h = refl
  run-Shows s a (c ∷ cs) h =
      let (shows, replies) = handle-Shows s a c h in
      rw (replies, run-Shows (handle r s c).0 (spec_handle a c).0 cs shows) refl

abbrev pub nothing : Spec
nothing = record { values = []; waiters = [] }

-- Over a database that fails no put and returns what was last put, the store's replies to any sequence
-- of commands are, in the same order, those of the specification: a read gets the last value written
-- under its key, a wait for a key that is written is answered at once, and a write answers all that
-- wait for its key, each once and in the order of their arrival.
pub run-refines :
    (r : Rocksdb)
    → IsReliable r
    → (cs : List StoreCommand) → (run r init cs).1 ≡ spec_run nothing cs
unfolding waiting senders_of
run-refines r reliable cs =
    run-Shows r reliable init nothing cs
      (record { values = refl; single = tt; waiters = λ k. refl })
