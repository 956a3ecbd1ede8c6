-- ===== src/Crypto/Threshold.antt =====
-- crypto/src/threshold.rs: a society whose members hold shares of a secret key, and the meetings
-- where they decrypt a message together. The package `threshold_crypto` is a parameter.
pub mod Shares
pub mod Decryption
mod Tests
use narwhal_td.Base.{
  ℕ, zero, suc, ◌+◌, Bool, true, false, not, Option, none, some, List, [], ◌∷◌, if◌then◌else◌,
}
use narwhal_td.Base.Map
use narwhal_td.Base.Map.{Map}
use narwhal_td.Base.Options.{◌>>=◌}

-- What the code takes from `threshold_crypto`. `random` has the threshold and what the random number
-- generator gives; `decrypt_share` and `decrypt` may fail.
pub record Scheme : Type 1 where
  pub SecretKeySet : Type 0
  pub PublicKeySet : Type 0
  pub SecretKeyShare : Type 0
  pub PublicKeyShare : Type 0
  pub PublicKey : Type 0
  pub Ciphertext : Type 0
  pub DecryptionShare : Type 0
  pub random : ℕ → ℕ → SecretKeySet
  pub public_keys : SecretKeySet → PublicKeySet
  pub public_key : PublicKeySet → PublicKey
  pub secret_key_share : SecretKeySet → ℕ → SecretKeyShare
  pub public_key_share : PublicKeySet → ℕ → PublicKeyShare
  pub same_ciphertext : Ciphertext → Ciphertext → Bool
  pub decrypt_share : SecretKeyShare → Ciphertext → Option DecryptionShare
  pub verify_decryption_share : PublicKeyShare → DecryptionShare → Ciphertext → Bool
  pub decrypt : PublicKeySet → Map DecryptionShare → Ciphertext → Option (List ℕ)

pub record Actor (t : Scheme) : Type 0 where
  pub id : ℕ
  pub sk_share : t.SecretKeyShare
  pub pk_share : t.PublicKeyShare
  pub msg_inbox : Option t.Ciphertext

pub record SecretSociety (t : Scheme) : Type 0 where
  pub actors : List (Actor t)
  pub pk_set : t.PublicKeySet

pub record DecryptionMeeting (t : Scheme) : Type 0 where
  pub pk_set : t.PublicKeySet
  pub ciphertext : Option t.Ciphertext
  pub dec_shares : Map t.DecryptionShare

-- `Actor::new`
abbrev pub new_actor : (t : Scheme) → ℕ → t.SecretKeyShare → t.PublicKeyShare → Actor t
new_actor t id sk_share pk_share = record {
  id = id;
  sk_share = sk_share;
  pk_share = pk_share;
  msg_inbox = none;
}

-- `(id..id + n).map(…)`
unfoldable pub new_actors : (t : Scheme) → t.SecretKeySet → t.PublicKeySet → ℕ → ℕ → List (Actor t)
new_actors t sk_set pk_set id zero = []
new_actors t sk_set pk_set id (suc n) =
    new_actor t id (t.secret_key_share sk_set id) (t.public_key_share pk_set id)
    ∷ new_actors t sk_set pk_set (id + 1) n

-- `SecretSociety::new`, for what the random number generator gives.
unfoldable pub new : (t : Scheme) → ℕ → ℕ → ℕ → SecretSociety t
new t rng n_actors threshold =
    let sk_set = t.random threshold rng in
    let pk_set = t.public_keys sk_set in
    record { actors = new_actors t sk_set pk_set 0 n_actors; pk_set = pk_set }

abbrev pub publish_public_key : (t : Scheme) → SecretSociety t → t.PublicKey
publish_public_key t s = t.public_key s.pk_set

-- `SecretSociety::get_actor`, with what is done to the actor; `none` is a panic, here if there is no
-- actor with that ID.
unfoldable pub get_actor :
    {A : Type 0} (t : Scheme)
    → (Actor t → Option (A × Actor t))
    → ℕ
    → List (Actor t)
    → Option (A × List (Actor t))
get_actor t f id [] = none
get_actor t f zero (actor ∷ actors) = do (a, changed) ← f actor; some (a, changed ∷ actors)
get_actor t f (suc id) (actor ∷ actors) = do
  (a, rest) ← get_actor t f id actors
  some (a, actor ∷ rest)

abbrev pub start_decryption_meeting : (t : Scheme) → SecretSociety t → DecryptionMeeting t
start_decryption_meeting t s = record { pk_set = s.pk_set; ciphertext = none; dec_shares = [] }

abbrev pub send_msg : (t : Scheme) → t.Ciphertext → Actor t → Actor t
send_msg t enc_msg actor = record actor { msg_inbox = some enc_msg }

-- Whether the meeting is on another ciphertext.
abbrev pub is_other : (t : Scheme) → t.Ciphertext → Option t.Ciphertext → Bool
is_other t ciphertext none = false
is_other t ciphertext (some meeting) = not (t.same_ciphertext ciphertext meeting)

abbrev pub or_first : (t : Scheme) → t.Ciphertext → Option t.Ciphertext → Option t.Ciphertext
or_first t ciphertext none = some ciphertext
or_first t ciphertext (some meeting) = some meeting

-- `assert!` before the change.
abbrev pub checked : {A : Type 0} → Bool → A → Option A
checked true a = some a
checked false a = none

-- The share of the actor, checked before it is put into the meeting; a share that does not verify
-- is a panic.
unfoldable pub contribute :
    (t : Scheme) → Actor t → t.Ciphertext → DecryptionMeeting t → Option (DecryptionMeeting t)
contribute t actor ciphertext m = do
  dec_share ← t.decrypt_share actor.sk_share ciphertext
  checked (t.verify_decryption_share actor.pk_share dec_share ciphertext)
      (record m { dec_shares = Map.insert actor.id dec_share m.dec_shares })

-- An actor with another ciphertext than the meeting's contributes nothing.
unfoldable pub attend :
    (t : Scheme) → Actor t → t.Ciphertext → DecryptionMeeting t → Option (DecryptionMeeting t)
attend t actor ciphertext m =
    if is_other t ciphertext m.ciphertext
    then some m
    else contribute t actor ciphertext
        (record m { ciphertext = or_first t ciphertext m.ciphertext })

-- `DecryptionMeeting::accept_decryption_share`: the meeting, and the actor with its message taken. An
-- actor without a message is a panic.
unfoldable pub accept_decryption_share :
    (t : Scheme) → DecryptionMeeting t → Actor t → Option (DecryptionMeeting t × Actor t)
accept_decryption_share t m actor = do
  ciphertext ← actor.msg_inbox
  changed ← attend t actor ciphertext m
  some (changed, record actor { msg_inbox = none })

-- `DecryptionMeeting::decrypt_message`: a panic if no actor has come, else a result.
unfoldable pub decrypt_message : (t : Scheme) → DecryptionMeeting t → Option (Option (List ℕ))
decrypt_message t m = do
  ciphertext ← m.ciphertext
  some (t.decrypt m.pk_set m.dec_shares ciphertext)

-- A message is sent to an actor of the society, or an actor comes to the meeting.
pub data Call (t : Scheme) : Type 0 where
  send : ℕ → t.Ciphertext → Call t
  arrive : ℕ → Call t

abbrev pub Session : Scheme → Type 0
Session t = List (Actor t) × DecryptionMeeting t

unfoldable pub step : (t : Scheme) → Call t → Session t → Option (Session t)
step t (send id c) (actors, m) = do
  (u, changed) ← get_actor t (λ a. some (tt, send_msg t c a)) id actors
  some (changed, m)
step t (arrive id) (actors, m) = do
  (m', changed) ← get_actor t (accept_decryption_share t m) id actors
  some (changed, m')

-- A sequence of calls; `none` if one of them panics.
unfoldable pub run : (t : Scheme) → List (Call t) → Session t → Option (Session t)
run t [] s = some s
run t (c ∷ cs) s = do next ← step t c s; run t cs next
