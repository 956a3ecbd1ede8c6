-- ===== src/Crypto/Encoding.antt =====
-- The textual and binary forms of keys and digests in crypto/src/lib.rs.
use narwhal_td.Base.{
  ℕ, Option, none, some, List, take, length, ltb, ◌==◌, if◌then◌else◌, be_bytes, of_be_bytes,
}
use narwhal_td.Base.Results.{Result, ok, err, panic}
use narwhal_td.Crypto.{PublicKey, Digest}

-- A string, as its characters.
abbrev pub Text : Type 0
Text = List ℕ

-- What the code takes from the package `base64`: `none` is a string that it does not decode.
pub record Base64 : Type 0 where
  pub encode : List ℕ → Text
  pub decode : Text → Option (List ℕ)

pub data DecodeError : Type 0 where
  invalid : DecodeError

-- `TryFrom<&[u8]> for Digest`: `none` for a slice of another length.
unfoldable pub try_from : List ℕ → Option Digest
try_from item = if length item == 32 then some (of_be_bytes 0 item) else none

-- `bytes[..n]`, which panics where there are fewer bytes; the conversion to an array then succeeds.
unfoldable pub first_bytes : ℕ → Option (List ℕ) → Result DecodeError (List ℕ)
first_bytes n none = err invalid
first_bytes n (some bytes) = if ltb (length bytes) n then panic else ok (take n bytes)

abbrev pub key_of : Result DecodeError (List ℕ) → Result DecodeError PublicKey
key_of (ok bytes) = ok (of_be_bytes 0 bytes)
key_of (err e) = err e
key_of panic = panic

unfoldable pub encode_base64 : Base64 → PublicKey → Text
encode_base64 b key = b.encode (be_bytes 32 key)

unfoldable pub decode_base64 : Base64 → Text → Result DecodeError PublicKey
decode_base64 b s = key_of (first_bytes 32 (b.decode s))

-- A secret key is its 64 bytes.
unfoldable pub encode_secret : Base64 → List ℕ → Text
encode_secret b secret = b.encode secret

unfoldable pub decode_secret : Base64 → Text → Result DecodeError (List ℕ)
decode_secret b s = first_bytes 64 (b.decode s)
