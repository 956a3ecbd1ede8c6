-- ===== src/Store.antt =====
-- store/src/lib.rs: the key-value store, and the tasks that wait for a key to be written.
-- The task that owns the database handles one command at a time; a sender is the number of its
-- oneshot channel.
pub mod Obligations
pub mod Spec
mod Tests
use narwhal_td.Base.{
  ℕ, Bool, true, false, ◌&&◌, Option, none, some, List, [], ◌∷◌, ◌++◌, map, ◌==◌, if◌then◌else◌,
}
use narwhal_td.Base.Results.{Result, ok, err, panic}

abbrev pub Key : Type 0
Key = List ℕ

abbrev pub Value : Type 0
Value = List ℕ

pub data StoreError : Type 0 where
  rocksdb_error : StoreError

abbrev pub StoreResult : Type 0 → Type 0
StoreResult A = Result StoreError A

-- The puts that the database was given, the latest first.
abbrev pub Puts : Type 0
Puts = List (Key × Value)

-- What the code takes from RocksDB: the answer of `get` after a sequence of puts, of which any may
-- have failed.
pub record Rocksdb : Type 0 where
  pub get : Puts → Key → StoreResult (Option Value)

abbrev pub Sender : Type 0
Sender = ℕ

pub data StoreCommand : Type 0 where
  write : Key → Value → StoreCommand
  read notify_read : Key → Sender → StoreCommand

pub data Reply : Type 0 where
  read_reply : Sender → StoreResult (Option Value) → Reply
  notify_reply : Sender → StoreResult Value → Reply

abbrev pub ObligationMap : Type 0
ObligationMap = List (Key × List Sender)

pub record State : Type 0 where
  pub db : Puts
  pub obligations : ObligationMap

abbrev pub init : State
init = record { db = []; obligations = [] }

unfoldable pub key_eq : Key → Key → Bool
key_eq [] [] = true
key_eq (x ∷ xs) (y ∷ ys) = x == y && key_eq xs ys
key_eq _ _ = false

-- The senders under a key, in the order of arrival.
unfoldable pub waiting : Key → ObligationMap → List Sender
waiting k [] = []
waiting k ((j, senders) ∷ o) = if key_eq j k then senders else waiting k o

-- `entry(key).or_insert_with(VecDeque::new).push_back(sender)`
unfoldable pub push_back : Key → Sender → ObligationMap → ObligationMap
push_back k s [] = (k, s ∷ []) ∷ []
push_back k s ((j, senders) ∷ o) =
    if key_eq j k then (j, senders ++ s ∷ []) ∷ o else (j, senders) ∷ push_back k s o

-- `obligations.remove(&key)`
unfoldable pub remove : Key → ObligationMap → ObligationMap
remove k [] = []
remove k ((j, senders) ∷ o) = if key_eq j k then o else (j, senders) ∷ remove k o

notify : Key → Sender → StoreResult (Option Value) → State → State × List Reply
notify key sender (ok none) s = (record s { obligations = push_back key sender s.obligations }, [])
notify key sender (ok (some value)) s = (s, notify_reply sender (ok value) ∷ [])
notify key sender (err e) s = (s, notify_reply sender (err e) ∷ [])
notify key sender panic s = (s, [])

-- One round of the task's loop: the new state and the replies sent.
unfoldable pub handle : Rocksdb → State → StoreCommand → State × List Reply
unfolding notify
handle r s (write key value) = (
  record { db = (key, value) ∷ s.db; obligations = remove key s.obligations },
  map (λ sender. notify_reply sender (ok value)) (waiting key s.obligations),
)
handle r s (read key sender) = (s, read_reply sender (r.get s.db key) ∷ [])
handle r s (notify_read key sender) = notify key sender (r.get s.db key) s

unfoldable pub run : Rocksdb → State → List StoreCommand → State × List Reply
run r s [] = (s, [])
run r s (c ∷ cs) =
    let (s', replies) = handle r s c in let (s'', rest) = run r s' cs in (s'', replies ++ rest)
