-- ===== src/Crypto/Threshold/Decryption.antt =====
-- What a meeting decrypts, after any sequence of messages and arrivals.
use mathlib.Core.Option.{some-injective}
use narwhal_td.Base.{ℕ, ◌<◌, ◌≡◌, refl, sym, ap, ◌∙◌, subst, true, some, List, length}
use narwhal_td.Base.Map
use narwhal_td.Base.Map.{Map, lookup-insert, insert-Distinct}
use narwhal_td.Base.Set.{Distinct}
use narwhal_td.Crypto.Threshold.{
  Scheme, DecryptionMeeting, new, decrypt_message, publish_public_key, start_decryption_meeting,
  Call, Session, run,
}
use narwhal_td.Crypto.Threshold.Shares.{IsSound, IsSame, run-IsProper, new_actors-AreMembers}

-- What the package promises of its sets of keys: more shares of a ciphertext than the threshold,
-- of different members and each verified, decrypt it.
abbrev pub Combines : (t : Scheme) → (t.PublicKey → List ℕ → ℕ → t.Ciphertext) → Type 0
Combines t encrypt =
    (threshold rng r : ℕ) (msg : List ℕ) (shares : Map t.DecryptionShare)
    → Distinct (Map.keys shares)
    → ((id : ℕ) (share : t.DecryptionShare)
        → Map.lookup id shares ≡ some share
        → t.verify_decryption_share (t.public_key_share (t.public_keys (t.random threshold rng)) id)
            share (encrypt (t.public_key (t.public_keys (t.random threshold rng))) msg r)
          ≡ true)
    → threshold < length shares
    → t.decrypt (t.public_keys (t.random threshold rng)) shares
        (encrypt (t.public_key (t.public_keys (t.random threshold rng))) msg r)
      ≡ some msg

-- After any messages to the actors of a new society and any arrivals at its meeting that do not panic,
-- each share that the meeting has recorded verifies, under the public share of the actor who gave it,
-- for the ciphertext of the meeting, and no actor has two.
pub run-IsSound :
    (t : Scheme) (rng n_actors threshold : ℕ) (calls : List (Call t)) (s : Session t)
    → IsSame t
    → run t calls (
      (new t rng n_actors threshold).actors,
      start_decryption_meeting t (new t rng n_actors threshold),
    )
      ≡ some s
    → IsSound t (new t rng n_actors threshold).pk_set s.1
unfolding new Map.lookup
run-IsSound t rng n threshold calls s same e =
    let pk = t.public_keys (t.random threshold rng) in
    (run-IsProper t pk calls _ s same
      (
        new_actors-AreMembers t pk (t.random threshold rng) 0 n,
        record { keys = refl; single = tt; valid = λ id share. cc },
      )
      e).1

shares-verified :
    (t : Scheme) (pk : t.PublicKeySet) (c : t.Ciphertext) (m : DecryptionMeeting t)
    → IsSound t pk m
    → m.ciphertext ≡ some c
    → (id : ℕ) (share : t.DecryptionShare) → Map.lookup id m.dec_shares ≡ some share
    → t.verify_decryption_share (t.public_key_share pk id) share c ≡ true
shares-verified t pk c m sound at_meeting id share found =
    let (d, at_meeting', verified) = sound.valid id share found in
    subst (λ x. t.verify_decryption_share (t.public_key_share pk id) share x ≡ true)
      (some-injective _ _ (sym at_meeting' ∙ at_meeting)) verified

-- Where the package combines more verified shares than the threshold into the message, a meeting decrypts
-- every message that was encrypted to the society's public key, after any messages to the actors and any
-- arrivals that do not panic, once its ciphertext is that of the message and it has recorded more shares
-- than the threshold.
pub run-decrypts :
    (t : Scheme) (encrypt : t.PublicKey → List ℕ → ℕ → t.Ciphertext) (rng n_actors threshold r : ℕ)
    (msg : List ℕ) (calls : List (Call t)) (s : Session t)
    → IsSame t
    → Combines t encrypt
    → run t calls (
      (new t rng n_actors threshold).actors,
      start_decryption_meeting t (new t rng n_actors threshold),
    )
      ≡ some s
    → s.1.ciphertext ≡ some (encrypt (publish_public_key t (new t rng n_actors threshold)) msg r)
    → threshold < length s.1.dec_shares
    → decrypt_message t s.1 ≡ some (some msg)
unfolding new decrypt_message
run-decrypts t encrypt rng n threshold r msg calls s same combines e at_meeting enough =
    let pk = t.public_keys (t.random threshold rng) in
    let c = encrypt (t.public_key pk) msg r in
    let sound = run-IsSound t rng n threshold calls s same e in
    let decrypted =
      combines threshold rng r msg s.1.dec_shares sound.single
        (shares-verified t pk c s.1 sound at_meeting) enough in
    rw at_meeting (rw sound.keys (ap some decrypted))
