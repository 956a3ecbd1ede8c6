-- ===== src/Crypto/Roundtrip.antt =====
-- Digests, keys and signatures of crypto/src/lib.rs, against their binary and textual forms.
use mathlib.Core.Option.{some-injective, none-ne-some}
use narwhal_td.Base.{
  ℕ, zero, suc, ◌+◌, ◌^◌, ◌<◌, ◌≡◌, ◌↔◌, refl, sym, ap, ◌∙◌, Bool, true, false, ◌&&◌, Option, none,
  some, List, [], ◌∷◌, ◌++◌, take, length, ltb, ◌==◌, be_bytes, of_be_bytes, arith, Bool-cases,
  Option-cases, inl, inr,
}
use narwhal_td.Base.Bytes.{
  values, IsBytes, of_be_bytes-be_bytes, be_bytes-IsBytes, be_bytes-of_be_bytes,
}
use narwhal_td.Base.Results.{Result, ok, err, panic}
use narwhal_td.Crypto.{
  PublicKey, Digest, Signature, Primitives, to_vec, drop_bytes, sign_digest, flatten, verify,
  SignatureService, request_signature,
}
use narwhal_td.Crypto.Encoding.{
  Text, Base64, DecodeError, try_from, first_bytes, encode_base64, decode_base64,
}

take-length : (xs : List ℕ) (n : ℕ) → length xs ≡ n → take n xs ≡ xs
take-length [] zero h = refl
take-length [] (suc n) h = refl
take-length (x ∷ xs) zero h = absurd (omega (arith, h))
take-length (x ∷ xs) (suc n) h = ap (λ (ys : List ℕ). x ∷ ys) (take-length xs n (omega (arith, h)))

-- A digest is the only one that its bytes are read as, and the bytes of what is read are those read.
pub to_vec-try_from :
    (d : Digest) (bytes : List ℕ)
    → d < 2 ^ 256
    → IsBytes 32 bytes
    → (try_from (to_vec d) ≡ some d)
      × ((e : Digest) × (try_from bytes ≡ some e) × (to_vec e ≡ bytes))
unfolding try_from to_vec values
to_vec-try_from d bytes fits h =
    let size : (length (be_bytes 32 d) == 32) ≡ true = ground (arith, (be_bytes-IsBytes 32 d).0) in
    let read : (length bytes == 32) ≡ true = ground (arith, h.0) in
    (
      rw size (ap some (of_be_bytes-be_bytes 32 d fits)),
      (of_be_bytes 0 bytes, rw read refl, be_bytes-of_be_bytes 32 bytes h),
    )

take-IsBytes :
    (n m : ℕ) (xs : List ℕ)
    → IsBytes (n + m) xs
    → IsBytes n (take n xs) × IsBytes m (drop_bytes n xs)
take-IsBytes zero m xs h = ((refl, tt), (omega (arith, h.0), h.1))
take-IsBytes (suc n) m [] h = absurd (omega (arith, h.0))
take-IsBytes (suc n) m (x ∷ xs) h =
    let (first, rest) = take-IsBytes n m xs (omega (arith, h.0), h.1.1) in
    ((ap suc first.0, (h.1.0, first.1)), rest)

take-drop : (n : ℕ) (xs : List ℕ) → take n xs ++ drop_bytes n xs ≡ xs
take-drop zero xs = refl
take-drop (suc n) [] = refl
take-drop (suc n) (x ∷ xs) = ap (λ (ys : List ℕ). x ∷ ys) (take-drop n xs)

halves :
    (sig : List ℕ)
    → IsBytes 64 sig
    → be_bytes 32 (of_be_bytes 0 (take 32 sig))
        ++ be_bytes 32 (of_be_bytes 0 (take 32 (drop_bytes 32 sig)))
      ≡ sig
halves sig h =
    let (first, second) = take-IsBytes 32 32 sig h in
    let whole = take-length (drop_bytes 32 sig) 32 second.0 in
    ap (λ (xs : List ℕ). xs ++ be_bytes 32 (of_be_bytes 0 (take 32 (drop_bytes 32 sig))))
      (be_bytes-of_be_bytes 32 (take 32 sig) first)
    ∙ ap (λ (xs : List ℕ). take 32 sig ++ be_bytes 32 (of_be_bytes 0 xs)) whole
    ∙ ap (λ (xs : List ℕ). take 32 sig ++ xs) (be_bytes-of_be_bytes 32 (drop_bytes 32 sig) second)
    ∙ take-drop 32 sig

-- The signature with these bytes.
abbrev signature_of : Option (List ℕ) → Option Signature
signature_of none = none
signature_of (some sig) = some (record {
  part1 = of_be_bytes 0 (take 32 sig);
  part2 = of_be_bytes 0 (take 32 (drop_bytes 32 sig));
})

-- What the signature service answers verifies for a digest and a key exactly if the 64 bytes that ed25519
-- signed do: the two halves of a signature give its bytes back.
pub request_signature-verify :
    (p : Primitives) (service : SignatureService) (d other : Digest) (key : PublicKey)
    (sig : List ℕ) (s : Signature)
    → p.sign service.secret (to_vec d) ≡ some sig
    → IsBytes 64 sig
    → request_signature p service d ≡ some s
    → verify p s other key ≡ (
        p.signature_from_bytes sig
        && p.key_from_bytes (be_bytes 32 key)
        && p.verify_strict (be_bytes 32 key) (to_vec other) sig)
unfolding request_signature sign_digest verify flatten
request_signature-verify p service d other key sig s signed h e =
    let same = some-injective _ _ (sym (ap signature_of signed) ∙ e) in
    let bytes : flatten s ≡ sig = ap flatten (sym same) ∙ halves sig h in
    ap
      (λ (xs : List ℕ).
        p.signature_from_bytes xs
        && p.key_from_bytes (be_bytes 32 key)
        && p.verify_strict (be_bytes 32 key) (to_vec other) xs)
      bytes

pub first_bytes-all :
    (n : ℕ) (bytes : List ℕ) → length bytes ≡ n → first_bytes n (some bytes) ≡ ok bytes
unfolding first_bytes
first_bytes-all n bytes h =
    let long : ltb (length bytes) n ≡ false = ground (arith, h) in
    rw long (ap ok (take-length bytes n h))

-- A public key comes back from its text, if base64 decodes what it encodes.
pub encode_base64-decode_base64 :
    (b : Base64) (key : PublicKey)
    → ((bytes : List ℕ) → IsBytes 32 bytes → b.decode (b.encode bytes) ≡ some bytes)
    → key < 2 ^ 256
    → decode_base64 b (encode_base64 b key) ≡ ok key
unfolding encode_base64 decode_base64 values
encode_base64-decode_base64 b key inverse fits =
    let bytes = be_bytes-IsBytes 32 key in
    rw (inverse (be_bytes 32 key) bytes)
      (rw (first_bytes-all 32 (be_bytes 32 key) bytes.0) (ap ok (of_be_bytes-be_bytes 32 key fits)))

is_panic : Result DecodeError PublicKey → Bool
is_panic (ok key) = false
is_panic (err e) = false
is_panic panic = true

not_panic : {x : Result DecodeError PublicKey} → x ≡ panic → is_panic x ≡ false → ⊥
unfolding is_panic
not_panic e h = let both = ap is_panic e in ground (arith, both, h)

still_short : (xs ys : List ℕ) → xs ≡ ys → length ys < 32 → ltb (length xs) 32 ≡ false → ⊥
still_short xs ys e h long = let size = ap length e in ground (arith, size, h, long)

-- Reading a key from a text panics exactly if base64 decodes the text to fewer than 32 bytes.
pub decode_base64-panic :
    (b : Base64) (s : Text)
    → (decode_base64 b s ≡ panic)
      ↔ ((bytes : List ℕ) × (b.decode s ≡ some bytes) × (length bytes < 32))
unfolding decode_base64 first_bytes is_panic
decode_base64-panic b s = elim (Option-cases (b.decode s)) [
  | inl undecoded ↦ (
    λ e. absurd (not_panic (rw undecoded at e) refl),
    λ k. absurd (none-ne-some _ (sym undecoded ∙ k.1)),
  )
  | inr (bytes, decoded) ↦ elim (Bool-cases (ltb (length bytes) 32)) [
    | inl short ↦ (λ e. (bytes, decoded, ground (arith, short)), λ k. rw decoded (rw short refl))
    | inr long ↦ (
      λ e. absurd (not_panic (rw long at (rw decoded at e)) refl),
      λ k. absurd (still_short bytes k.0 (some-injective _ _ (sym decoded ∙ k.1)) k.2 long),
    )
  ]
]
