-- ===== src/Primary/Core/Justified.antt =====
-- What stands behind each vote that `Core` of primary/src/core.rs sends.
pub mod Found
pub mod Stages
pub mod Methods
use narwhal_td.Base.{
  ◌≤◌, ◌≡◌, Bool, true, Option, none, some, List, [], ◌∷◌, ◌++◌, All, All-weaken, inl, inr, ◌⊎◌,
}
use narwhal_td.Base.Map.{Map}
use narwhal_td.Crypto.{Digest, to_vec}
use narwhal_td.Config.{Committee, WorkerId, quorum_threshold}
use narwhal_td.Store.{Puts, Key, Value, key_eq}
use narwhal_td.Primary.Header.{Header}
use narwhal_td.Primary.Vote.{Vote}
use narwhal_td.Primary.Certificate.{Certificate}
use narwhal_td.Primary.Platform.{Platform, PrimaryMessage}
use narwhal_td.Primary.Synchronizer.{find_genesis, payload_key}
use narwhal_td.Primary.Core.State.{
  Effect, to_network, to_header_waiter, to_certificate_waiter, to_proposer, to_consensus,
}
use narwhal_td.Primary.Core.Process.Parents.{IsParent, parent_stake}
use narwhal_td.Primary.Core.Delivery.{IsWritten, IsWritten-append, WasPut, WasPut-append}
use narwhal_td.Primary.Core.Sent.{Known, IsQuiet, IsStable}

-- The digest is that of this genesis certificate, or the store was given the certificate under it.
abbrev pub IsParentFor : Platform → Known → Puts → Digest → Certificate → Type 0
IsParentFor p known db d c =
    (find_genesis d known ≡ some c)
    ⊎ ((v : Value) × (p.deserialize_certificate v ≡ some c) × WasPut (to_vec d) v db)

-- The certificates are those of the digests, one by one.
abbrev pub AreParentsFor : Platform → Known → Puts → List Digest → List Certificate → Type 0
AreParentsFor p known db [] [] = Unit
AreParentsFor p known db [] (c ∷ cs) = ⊥
AreParentsFor p known db (d ∷ ds) [] = ⊥
AreParentsFor p known db (d ∷ ds) (c ∷ cs) =
    IsParentFor p known db d c × AreParentsFor p known db ds cs

abbrev pub IsBatchAtHand : Puts → Digest × WorkerId → Type 0
IsBatchAtHand db (digest, worker_id) = IsWritten db (payload_key digest worker_id)

-- The parents of the header are certificates of the round before that weigh a quorum, and each batch
-- of its payload is marked in the store.
abbrev pub IsSupported : Platform → Known → Committee → Puts → Header → Type 0
IsSupported p known c db h =
    (parents : List Certificate) × (AreParentsFor p known db h.parents parents)
    × (All (IsParent h) parents)
    × (quorum_threshold c ≤ parent_stake c parents)
    × All (IsBatchAtHand db) h.payload

-- A vote that is sent is for a header that was put under its id, and that is supported.
abbrev pub IsJustified : Platform → Known → Committee → Puts → Effect → Type 0
IsJustified p known c db (to_network address (PrimaryMessage.vote v)) =
    (h : Header) × (v.id ≡ h.id)
    × (v.round ≡ h.round)
    × (v.origin ≡ h.author)
    × WasPut (to_vec h.id) (p.serialize_header h) db
    × IsSupported p known c db h
IsJustified p known c db _ = Unit {0}

pub AreBatchesAtHand-append :
    (ws db : Puts) (payload : Map WorkerId)
    → All (IsBatchAtHand db) payload
    → All (IsBatchAtHand (ws ++ db)) payload
AreBatchesAtHand-append ws db payload h =
    All-weaken (IsBatchAtHand db) (IsBatchAtHand (ws ++ db)) payload
      (λ x held. IsWritten-append ws db (payload_key x.0 x.1) held) h

module _ (p : Platform) (known : Known) (ws db : Puts) where
  IsParentFor-append :
      (d : Digest) (c : Certificate)
      → IsParentFor p known db d c
      → IsParentFor p known (ws ++ db) d c
  IsParentFor-append d c (inl g) = inl g
  IsParentFor-append d c (inr (v, e, put)) = inr (v, e, WasPut-append ws db (to_vec d) v put)

  pub AreParentsFor-append :
      (ds : List Digest) (cs : List Certificate)
      → AreParentsFor p known db ds cs
      → AreParentsFor p known (ws ++ db) ds cs
  AreParentsFor-append [] [] h = tt
  AreParentsFor-append [] (c ∷ cs) h = absurd h
  AreParentsFor-append (d ∷ ds) [] h = absurd h
  AreParentsFor-append (d ∷ ds) (c ∷ cs) h =
      (IsParentFor-append d c h.0, AreParentsFor-append ds cs h.1)

module _ (p : Platform) where
  IsJustified-append :
      (known : Known) (c : Committee) (ws db : Puts) (e : Effect)
      → IsJustified p known c db e
      → IsJustified p known c (ws ++ db) e
  IsJustified-append known c ws db (to_network a (PrimaryMessage.vote v))
        (h, i, r, o, put, (cs, f, g, q, b)) =
      (
        h,
        i,
        r,
        o,
        WasPut-append ws db (to_vec h.id) (p.serialize_header h) put,
        (
          cs,
          AreParentsFor-append p known ws db h.parents cs f,
          g,
          q,
          AreBatchesAtHand-append ws db h.payload b,
        ),
      )
  IsJustified-append known c ws db (to_network a (PrimaryMessage.header h)) j = tt
  IsJustified-append known c ws db (to_network a (PrimaryMessage.certificate x)) j = tt
  IsJustified-append known c ws db (to_network a (PrimaryMessage.certificates_request ds n)) j = tt
  IsJustified-append known c ws db (to_header_waiter m) j = tt
  IsJustified-append known c ws db (to_certificate_waiter x) j = tt
  IsJustified-append known c ws db (to_proposer ds r) j = tt
  IsJustified-append known c ws db (to_consensus x) j = tt

  IsJustified-quiet :
      (known : Known) (c : Committee) (db : Puts) (e : Effect)
      → IsQuiet e
      → IsJustified p known c db e
  IsJustified-quiet known c db (to_network a (PrimaryMessage.vote v)) q = absurd q
  IsJustified-quiet known c db (to_network a (PrimaryMessage.header h)) q = tt
  IsJustified-quiet known c db (to_network a (PrimaryMessage.certificate x)) q = tt
  IsJustified-quiet known c db (to_network a (PrimaryMessage.certificates_request ds n)) q = tt
  IsJustified-quiet known c db (to_consensus x) q = absurd q
  IsJustified-quiet known c db (to_header_waiter m) q = tt
  IsJustified-quiet known c db (to_certificate_waiter x) q = tt
  IsJustified-quiet known c db (to_proposer ds r) q = tt

  pub stable : IsStable (IsJustified p)
  stable = record { grows = IsJustified-append; quiet = IsJustified-quiet }
