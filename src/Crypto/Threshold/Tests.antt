-- ===== src/Crypto/Threshold/Tests.antt =====
-- A society of three with threshold one, over a scheme that does not hide anything.
use narwhal_td.Base.{
  ℕ, ◌≡◌, refl, Option, none, some, List, [], ◌∷◌, length, ltb, ◌==◌, arith, if◌then◌else◌,
}
use narwhal_td.Base.Map
use narwhal_td.Store.{key_eq}
use narwhal_td.Store.Obligations.{key_eq_sound}
use narwhal_td.Crypto.Threshold
use narwhal_td.Crypto.Threshold.{
  Scheme, Actor, SecretSociety, Call, send, arrive, Session, new, start_decryption_meeting,
  decrypt_message, run,
}
use narwhal_td.Crypto.Threshold.Shares.{IsSame, IsSound}
use narwhal_td.Crypto.Threshold.Decryption.{Combines, run-IsSound, run-decrypts}

-- A key set is its threshold, and a ciphertext its message.
abbrev scheme : Scheme
scheme = record {
  SecretKeySet = ℕ;
  PublicKeySet = ℕ;
  SecretKeyShare = ℕ;
  PublicKeyShare = ℕ;
  PublicKey = ℕ;
  Ciphertext = List ℕ;
  DecryptionShare = ℕ;
  random = λ threshold rng. threshold;
  public_keys = λ sk. sk;
  public_key = λ pk. pk;
  secret_key_share = λ sk id. id;
  public_key_share = λ pk id. id;
  same_ciphertext = key_eq;
  decrypt_share = λ sk c. some sk;
  verify_decryption_share = λ pk share c. pk == share;
  decrypt = λ pk shares c. if ltb pk (length shares) then some c else none;
}

abbrev encrypt : ℕ → List ℕ → ℕ → List ℕ
encrypt pk msg r = msg

same : IsSame scheme
same c d e = key_eq_sound c d e

combines : Combines scheme encrypt
combines threshold rng r msg shares single verified enough = ground (arith, enough)

abbrev society : SecretSociety scheme
society = new scheme 0 3 1

-- The second actor has another message, so that only the shares of the two others are recorded.
abbrev calls : List (Call scheme)
calls = send 0 (7 ∷ []) ∷ send 1 (8 ∷ []) ∷ send 2 (7 ∷ []) ∷ arrive 2 ∷ arrive 1 ∷ arrive 0 ∷ []

abbrev session : Session scheme
session = (society.actors, start_decryption_meeting scheme society)

abbrev state_of : Option (Session scheme) → Session scheme
state_of none = session
state_of (some s) = s

abbrev after : Session scheme
after = state_of (run scheme calls session)

ran : run scheme calls session ≡ some after
unfolding run Threshold.step Threshold.get_actor new Threshold.new_actors
    Threshold.accept_decryption_share Threshold.attend Threshold.contribute key_eq Map.insert
ran = refl

run-IsSound_example : IsSound scheme society.pk_set after.1
run-IsSound_example = run-IsSound scheme 0 3 1 calls after same ran

run-decrypts_example : decrypt_message scheme after.1 ≡ some (some (7 ∷ []))
unfolding run Threshold.step Threshold.get_actor new Threshold.new_actors
    Threshold.accept_decryption_share Threshold.attend Threshold.contribute key_eq Map.insert
run-decrypts_example =
    run-decrypts scheme encrypt 0 3 1 0 (7 ∷ []) calls after same combines ran refl (omega arith)

no_message : run scheme (arrive 0 ∷ []) session ≡ none
unfolding run Threshold.step Threshold.get_actor new Threshold.new_actors
    Threshold.accept_decryption_share Threshold.attend Threshold.contribute key_eq Map.insert
no_message = refl
