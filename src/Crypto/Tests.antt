-- ===== src/Crypto/Tests.antt =====
-- The theorems on the forms of keys, digests and signatures, at small numbers.
use narwhal_td.Base.{
  ℕ, ◌<◌, ◌≡◌, ◌↔◌, refl, some, ◌&&◌, List, [], ◌∷◌, length, be_bytes, of_be_bytes,
}
use narwhal_td.Base.Bytes.{be_bytes-IsBytes}
use narwhal_td.Base.Results.{panic}
use narwhal_td.Crypto.{Signature, Primitives, to_vec, verify, request_signature}
use narwhal_td.Crypto.Encoding.{Base64, decode_base64}
use narwhal_td.Crypto.Roundtrip.{request_signature-verify, decode_base64-panic}
use narwhal_td.Samples.{primitives, service}

abbrev base64 : Base64
base64 = record { encode = λ bytes. bytes; decode = λ s. some s }

abbrev signing : Primitives
signing = record primitives { sign = λ secret message. some (be_bytes 64 5) }

abbrev signature : Signature
signature = record { part1 = 0; part2 = 5 }

signed : request_signature signing service 9 ≡ some signature
unfolding request_signature of_be_bytes be_bytes
signed = refl

request_signature-verify_example : verify signing signature 9 4 ≡ (
    signing.signature_from_bytes (be_bytes 64 5)
    && signing.key_from_bytes (be_bytes 32 4)
    && signing.verify_strict (be_bytes 32 4) (to_vec 9) (be_bytes 64 5))
request_signature-verify_example =
    request_signature-verify signing service 9 9 4 (be_bytes 64 5) signature refl
      (be_bytes-IsBytes 64 5) signed

decode_base64-panic_example :
    (decode_base64 base64 (1 ∷ 2 ∷ []) ≡ panic)
    ↔ ((bytes : List ℕ) × (base64.decode (1 ∷ 2 ∷ []) ≡ some bytes) × (length bytes < 32))
decode_base64-panic_example = decode_base64-panic base64 (1 ∷ 2 ∷ [])
