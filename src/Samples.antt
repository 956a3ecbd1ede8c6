-- ===== src/Samples.antt =====
-- Concrete values for the tests: a committee of four, a database that keeps every put, and
-- functions over bytes in place of the cryptography: a hash is the last byte.
use narwhal_td.Base.{ℕ, ◌+◌, true, Option, none, some, List, [], ◌∷◌, reverse, take, if◌then◌else◌}
use narwhal_td.Base.Results.{ok}
use narwhal_td.Crypto
use narwhal_td.Crypto.{PublicKey, Primitives, SignatureService, default_signature}
use narwhal_td.Config.{Authority, Committee}
use narwhal_td.Store.{Key, Value, Puts, Rocksdb, key_eq}
use narwhal_td.Primary.Header
use narwhal_td.Primary.Header.{Header}
use narwhal_td.Primary.Certificate.{Certificate}
use narwhal_td.Primary.Platform.{Platform}

abbrev pub primitives : Primitives
primitives = record {
  sha512 = λ bytes. take 1 (reverse bytes);
  sign = λ secret message. some message;
  signature_from_bytes = λ bytes. true;
  key_from_bytes = λ bytes. true;
  verify_strict = λ key message signature. true;
  verify_batch = λ messages signatures keys. true;
}

abbrev authority : ℕ → Authority
authority n = record {
  stake = 1;
  primary = record { primary_to_primary = n; worker_to_primary = 10 + n };
  workers =
      (0, record { transactions = 20 + n; worker_to_worker = 30 + n; primary_to_worker = 40 + n })
      ∷ [];
}

abbrev pub committee : Committee
committee = record {
  authorities = (1, authority 1) ∷ (2, authority 2) ∷ (3, authority 3) ∷ (4, authority 4) ∷ [];
}

abbrev find : Key → Puts → Option Value
find k [] = none
find k ((j, v) ∷ db) = if key_eq j k then some v else find k db

abbrev pub rocksdb : Rocksdb
rocksdb = record { get = λ db key. ok (find key db) }

abbrev pub service : SignatureService
service = record { secret = [] }

abbrev pub platform : Platform
platform = record {
  primitives = primitives;
  rocksdb = rocksdb;
  serialize_header = λ h. [];
  serialize_certificate = λ c. [];
  deserialize_certificate = λ bytes. none;
}

abbrev unsigned : PublicKey → ℕ → List ℕ → Header
unsigned author round parents = record {
  author = author;
  round = round;
  payload = [];
  parents = parents;
  id = 0;
  signature = default_signature;
}

-- A header with its digest as its id.
abbrev pub header : PublicKey → ℕ → List ℕ → Header
header author round parents = record (unsigned author round parents) {
  id = Header.digest primitives (unsigned author round parents);
}

abbrev votes : List PublicKey → List (PublicKey × Crypto.Signature)
votes [] = []
votes (x ∷ xs) = (x, default_signature) ∷ votes xs

abbrev pub certificate : PublicKey → ℕ → List ℕ → List PublicKey → Certificate
certificate author round parents signers = record {
  header = header author round parents;
  votes = votes signers;
}
