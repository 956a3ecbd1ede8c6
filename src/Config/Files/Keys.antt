-- ===== src/Config/Files/Keys.antt =====
-- The key pair of a node in its file.
use narwhal_td.Base.{ℕ, ◌≡◌, refl, ap, ◌∙◌, some, List, of_be_bytes}
use narwhal_td.Base.Bytes.{IsBytes, be_bytes-of_be_bytes}
use narwhal_td.Base.Results.{ok}
use narwhal_td.Crypto.Encoding.{
  Base64, key_of, first_bytes, encode_base64, decode_base64, encode_secret, decode_secret,
}
use narwhal_td.Crypto.Keys.{Dalek, generate_keypair, deserialize_public, deserialize_secret}
use narwhal_td.Crypto.Roundtrip.{first_bytes-all}
use narwhal_td.Config.Files.{new_key_pair, write_key_pair, read_key_pair}

read_public :
    (b : Base64) (bytes : List ℕ)
    → IsBytes 32 bytes
    → ((xs : List ℕ) → b.decode (b.encode xs) ≡ some xs)
    → decode_base64 b (encode_base64 b (of_be_bytes 0 bytes)) ≡ ok (of_be_bytes 0 bytes)
unfolding encode_base64 decode_base64
read_public b bytes h inverse =
    ap (λ xs. key_of (first_bytes 32 (b.decode (b.encode xs)))) (be_bytes-of_be_bytes 32 bytes h)
    ∙ ap (λ o. key_of (first_bytes 32 o)) (inverse bytes)
    ∙ ap key_of (first_bytes-all 32 bytes h.0)

read_secret :
    (b : Base64) (bytes : List ℕ)
    → IsBytes 64 bytes
    → ((xs : List ℕ) → b.decode (b.encode xs) ≡ some xs)
    → decode_secret b (encode_secret b bytes) ≡ ok bytes
unfolding encode_secret decode_secret
read_secret b bytes h inverse = ap (first_bytes 64) (inverse bytes) ∙ first_bytes-all 64 bytes h.0

-- A key pair that is generated comes back from the two strings that are written for it, if the generator
-- gives 32 bytes for the public key and 64 for the pair, and base64 decodes what it encodes.
pub read_key_pair-write_key_pair :
    (b : Base64) (dalek : Dalek) (rng : ℕ)
    → IsBytes 32 (dalek.public_bytes rng)
    → IsBytes 64 (dalek.pair_bytes rng)
    → ((bytes : List ℕ) → b.decode (b.encode bytes) ≡ some bytes)
    → read_key_pair b (write_key_pair b (new_key_pair dalek rng)) ≡ ok (new_key_pair dalek rng)
unfolding read_key_pair write_key_pair new_key_pair generate_keypair deserialize_public
    deserialize_secret
read_key_pair-write_key_pair b dalek rng public pair inverse =
    rw (read_public b (dalek.public_bytes rng) public inverse)
      (rw (read_secret b (dalek.pair_bytes rng) pair inverse) refl)
