-- ===== src/Crypto/Keys.antt =====
-- The generation of keys in crypto/src/lib.rs, and keys as `serde` writes and reads them.
use narwhal_td.Base.{ℕ, Option, none, some, List, of_be_bytes}
use narwhal_td.Base.Results.{Result, err}
use narwhal_td.Crypto.{PublicKey}
use narwhal_td.Crypto.Encoding.{
  Text, Base64, DecodeError, invalid, encode_base64, decode_base64, encode_secret, decode_secret,
}

-- `Keypair::generate` of `ed25519_dalek`, for what the generator of random numbers gives: the bytes of
-- the public key, and those of the pair.
pub record Dalek : Type 0 where
  pub public_bytes : ℕ → List ℕ
  pub pair_bytes : ℕ → List ℕ

abbrev pub SecretKey : Type 0
SecretKey = List ℕ

-- `generate_keypair`, and `generate_production_keypair` for the system's generator.
unfoldable pub generate_keypair : Dalek → ℕ → PublicKey × SecretKey
generate_keypair dalek rng = (of_be_bytes 0 (dalek.public_bytes rng), dalek.pair_bytes rng)

-- `Serialize`: the string that is given to the serializer.
abbrev pub serialize_public : Base64 → PublicKey → Text
serialize_public b key = encode_base64 b key

abbrev pub serialize_secret : Base64 → SecretKey → Text
serialize_secret b secret = encode_secret b secret

-- `Deserialize`, for the string that the deserializer gives, if it gives one.
unfoldable pub deserialize_public : Base64 → Option Text → Result DecodeError PublicKey
deserialize_public b none = err invalid
deserialize_public b (some s) = decode_base64 b s

unfoldable pub deserialize_secret : Base64 → Option Text → Result DecodeError SecretKey
deserialize_secret b none = err invalid
deserialize_secret b (some s) = decode_secret b s
