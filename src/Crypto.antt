-- ===== src/Crypto.antt =====
-- crypto/src/lib.rs: keys, digests, signatures and the signature service.
-- A 32-byte array is the number that its bytes spell, the first byte the highest, so that
-- comparing numbers is comparing arrays.
pub mod Encoding
pub mod Keys
pub mod Roundtrip
pub mod Threshold
mod Tests
use narwhal_td.Base.{
  ℕ, suc, zero, Bool, false, ◌&&◌, Option, none, some, List, [], ◌∷◌, ◌++◌, take, be_bytes,
  of_be_bytes, if◌then◌else◌,
}

abbrev pub PublicKey : Type 0
PublicKey = ℕ

abbrev pub Digest : Type 0
Digest = ℕ

pub record Signature : Type 0 where
  pub part1 : ℕ
  pub part2 : ℕ

-- What the code takes from `sha2` and `ed25519_dalek`, over bytes. The two `from_bytes` say
-- whether the bytes are accepted; `sign` fails where the key pair cannot be loaded.
pub record Primitives : Type 0 where
  pub sha512 : List ℕ → List ℕ
  pub sign : List ℕ → List ℕ → Option (List ℕ)
  pub signature_from_bytes : List ℕ → Bool
  pub key_from_bytes : List ℕ → Bool
  pub verify_strict : List ℕ → List ℕ → List ℕ → Bool
  pub verify_batch : List (List ℕ) → List (List ℕ) → List (List ℕ) → Bool

-- `Digest::to_vec` and `AsRef`.
unfoldable pub to_vec : Digest → List ℕ
to_vec d = be_bytes 32 d

-- `Digest::size`
abbrev pub size : Digest → ℕ
size d = 32

abbrev pub default_signature : Signature
default_signature = record { part1 = 0; part2 = 0 }

-- `Digest(hasher.finalize().as_slice()[..32])`
unfoldable pub finalize : Primitives → List ℕ → Digest
finalize p bytes = of_be_bytes 0 (take 32 (p.sha512 bytes))

abbrev pub drop_bytes : ℕ → List ℕ → List ℕ
drop_bytes zero xs = xs
drop_bytes (suc n) [] = []
drop_bytes (suc n) (x ∷ xs) = drop_bytes n xs

-- `Signature::new`; `none` is the panic of its `expect`s.
sign_digest : Primitives → Digest → List ℕ → Option Signature
sign_digest p digest secret = elim (p.sign secret (to_vec digest)) [
  | none ↦ none
  | some sig ↦ some (record {
    part1 = of_be_bytes 0 (take 32 sig);
    part2 = of_be_bytes 0 (take 32 (drop_bytes 32 sig));
  })
]

flatten : Signature → List ℕ
flatten s = be_bytes 32 s.part1 ++ be_bytes 32 s.part2

-- `Signature::verify`: whether it returns `Ok`.
unfoldable pub verify : Primitives → Signature → Digest → PublicKey → Bool
unfolding flatten to_vec
verify p s digest public_key =
    p.signature_from_bytes (flatten s)
    && p.key_from_bytes (be_bytes 32 public_key)
    && p.verify_strict (be_bytes 32 public_key) (to_vec digest) (flatten s)

-- The loop of `Signature::verify_batch`, then the call of `dalek::verify_batch`.
collect_batch :
    Primitives
    → Digest
    → List (List ℕ)
    → List (List ℕ)
    → List (List ℕ)
    → List (PublicKey × Signature)
    → Bool
collect_batch p digest messages signatures keys [] = p.verify_batch messages signatures keys
collect_batch p digest messages signatures keys ((key, sig) ∷ votes) =
    let rest =
      collect_batch p digest (messages ++ to_vec digest ∷ []) (signatures ++ flatten sig ∷ [])
        (keys ++ be_bytes 32 key ∷ []) votes in
    if p.signature_from_bytes (flatten sig) && p.key_from_bytes (be_bytes 32 key)
    then rest
    else false

-- `Signature::verify_batch`: whether it returns `Ok`.
unfoldable pub verify_batch : Primitives → Digest → List (PublicKey × Signature) → Bool
unfolding collect_batch flatten to_vec
verify_batch p digest votes = collect_batch p digest [] [] [] votes

-- `SignatureService`: it holds the secret key and answers each request by `Signature::new`.
pub record SignatureService : Type 0 where
  pub secret : List ℕ

unfoldable pub request_signature : Primitives → SignatureService → Digest → Option Signature
unfolding sign_digest
request_signature p service digest = sign_digest p digest service.secret
