-- ===== src/Primary/Core/Delivery.antt =====
-- What `Core` of primary/src/core.rs hands to consensus, against its store.
pub mod Handover
pub mod Methods
use narwhal_td.Base.{
  ℕ, ◌≡◌, refl, sym, ap, ◌∙◌, Bool, true, false, Option, none, some, List, [], ◌∷◌, ◌++◌, map, All,
  All-append, All-weaken, arith, if◌then◌else◌, Bool-cases, inl, inr, ◌⊎◌,
}
use narwhal_td.Base.Results.{Result, ok, err, panic}
use narwhal_td.Crypto.{Digest, to_vec}
use narwhal_td.Config.{Committee, ConfigError, PrimaryAddresses, SocketAddr}
use narwhal_td.Store.{Puts, StoreResult, Key, Value, key_eq}
use narwhal_td.Store.Spec.{last_written, IsReliable}
use narwhal_td.Primary.Error.{DagResult}
use narwhal_td.Primary.Header.{Header, Round}
use narwhal_td.Primary.Vote.{Vote}
use narwhal_td.Primary.Aggregators.{new_votes}
use narwhal_td.Primary.Certificate
use narwhal_td.Primary.Certificate.{Certificate}
use narwhal_td.Primary.Platform.{Platform, PrimaryMessage}
use narwhal_td.Primary.Synchronizer.{find_genesis, deliver_certificate}
use narwhal_td.Primary.Synchronizer.Ancestors.{IsKnown, deliver_certificate_iff}
use narwhal_td.Primary.Core.State.{
  Core, Exec, Effect, to_network, to_header_waiter, to_certificate_waiter, to_proposer,
  to_consensus, continue, ◌>>=◌, ◌>>◌, pure, raise, query, modify, send, broadcast, emit, primaries,
}
use narwhal_td.Primary.Core.Process.{
  write, register, deliver_vote, to_author, vote_for, accept_header, mark_processing,
  append_to_votes, append_to_certificates, to_new_round, accept_certificate, deliver,
  finish_certificate,
}
use narwhal_td.Primary.Core.Sent.{Known, IsQuiet, IsStable}
use narwhal_td.Primary.Core.Keeps.{Keeps, IsLocal, IsKept, keeps_rules}

-- Something is written under the key.
abbrev pub IsWritten : Puts → Key → Type 0
IsWritten db k = (v : Value) × (last_written k db ≡ some v)

-- A genesis certificate, or one that is written.
abbrev pub IsAtHand : List (Digest × Certificate) → Puts → Digest → Type 0
IsAtHand known db d =
    ((c : Certificate) × (find_genesis d known ≡ some c)) ⊎ IsWritten db (to_vec d)

-- The value was put under the key at some time.
abbrev pub WasPut : Key → Value → Puts → Type 0
WasPut k v [] = ⊥
WasPut k v ((j, w) ∷ db) = ((key_eq j k ≡ true) × (w ≡ v)) ⊎ WasPut k v db

-- A certificate for consensus was itself put under its digest, and its parents are at hand.
abbrev pub IsBacked : Platform → List (Digest × Certificate) → Puts → Effect → Type 0
IsBacked p known db (to_consensus c) =
    WasPut (to_vec (Certificate.digest p.primitives c)) (p.serialize_certificate c) db
    × All (IsAtHand known db) c.header.parents
IsBacked p known db _ = Unit {0}

pub IsWritten-append : (ws db : Puts) (k : Key) → IsWritten db k → IsWritten (ws ++ db) k
unfolding last_written
IsWritten-append [] db k h = h
IsWritten-append ((j, v) ∷ ws) db k h = elim (Bool-cases (key_eq j k)) [
  | inl same ↦ (v, rw same refl)
  | inr other ↦ let (w, found) = IsWritten-append ws db k h in (w, rw other found)
]

pub WasPut-append : (ws db : Puts) (k : Key) (v : Value) → WasPut k v db → WasPut k v (ws ++ db)
WasPut-append [] db k v h = h
WasPut-append (w ∷ ws) db k v h = inr (WasPut-append ws db k v h)

abbrev pub stored : StoreResult (Option Value) → Option Value
stored (ok o) = o
stored (err e) = none
stored panic = none

module _ (p : Platform) where
  pub IsAtHand-append :
      (known : List (Digest × Certificate)) (ws db : Puts) (d : Digest)
      → IsAtHand known db d
      → IsAtHand known (ws ++ db) d
  IsAtHand-append known ws db d (inl g) = inl g
  IsAtHand-append known ws db d (inr w) = inr (IsWritten-append ws db (to_vec d) w)

  IsBacked-append :
      (known : List (Digest × Certificate)) (ws db : Puts) (e : Effect)
      → IsBacked p known db e
      → IsBacked p known (ws ++ db) e
  IsBacked-append known ws db (to_consensus c) (own, parents) = (
    WasPut-append ws db _ _ own,
    All-weaken (IsAtHand known db) (IsAtHand known (ws ++ db)) c.header.parents
        (IsAtHand-append known ws db) parents,
  )
  IsBacked-append known ws db (to_network a m) h = tt
  IsBacked-append known ws db (to_header_waiter m) h = tt
  IsBacked-append known ws db (to_certificate_waiter c) h = tt
  IsBacked-append known ws db (to_proposer ds r) h = tt

  abbrev pub P : Core → Type 0
  P s = All (IsBacked p s.genesis s.db) s.sent

  IsBacked-quiet :
      (known : List (Digest × Certificate)) (db : Puts) (e : Effect)
      → IsQuiet e
      → IsBacked p known db e
  IsBacked-quiet known db (to_network a (PrimaryMessage.vote v)) q = absurd q
  IsBacked-quiet known db (to_network a (PrimaryMessage.header h)) q = tt
  IsBacked-quiet known db (to_network a (PrimaryMessage.certificate c)) q = tt
  IsBacked-quiet known db (to_network a (PrimaryMessage.certificates_request ds n)) q = tt
  IsBacked-quiet known db (to_consensus c) q = absurd q
  IsBacked-quiet known db (to_header_waiter m) q = tt
  IsBacked-quiet known db (to_certificate_waiter c) q = tt
  IsBacked-quiet known db (to_proposer ds r) q = tt

  abbrev pub E : Known → Committee → Puts → Effect → Type 0
  E known c db = IsBacked p known db

  pub stable : IsStable E
  stable = record {
    grows = λ known c ws db e. IsBacked-append known ws db e;
    quiet = λ known c db e. IsBacked-quiet known db e;
  }
