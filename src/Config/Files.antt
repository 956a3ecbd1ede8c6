-- ===== src/Config/Files.antt =====
-- `Import` and `Export` of config/src/lib.rs: the committee, the parameters and the keys in files.
-- The file system and `serde_json` are parameters.
pub mod Content
pub mod Keys
mod Tests
use narwhal_td.Base.{ℕ, Bool, true, false, Option, none, some, List, [], ◌∷◌}
use narwhal_td.Base.Results.{Result, ok, err, panic, ◌>>=◌, ok_or}
use narwhal_td.Crypto.{PublicKey}
use narwhal_td.Crypto.Encoding.{Text, Base64, DecodeError}
use narwhal_td.Crypto.Keys.{
  Dalek, SecretKey, generate_keypair, serialize_public, serialize_secret, deserialize_public,
  deserialize_secret,
}
use narwhal_td.Crypto.Threshold.{Scheme}
use narwhal_td.Config.{ConfigError, FilePath, import_error, export_error}

abbrev pub Bytes : Type 0
Bytes = List ℕ

-- `fs::read`, the opening of a file for writing that makes it if it is not there, and what a
-- `BufWriter` does that is given these pieces at the start of the file and dropped: whether each
-- `write_all` returned without an error, and the disk. `none` is an error.
pub record FileSystem (Disk : Type 0) : Type 0 where
  pub fs_read : FilePath → Disk → Option Bytes
  pub open_create_write : FilePath → Disk → Option Disk
  pub write_buffered : FilePath → List Bytes → Disk → Bool × Disk

-- `serde_json` for one type; `none` is an error.
pub record Json (A : Type 0) : Type 0 where
  pub to_string_pretty : A → Option Bytes
  pub from_slice : Bytes → Option A

-- `Import::import`
unfoldable pub import_file :
    {A Disk : Type 0} → FileSystem Disk → Json A → FilePath → Disk → Result ConfigError A
import_file fs json path disk = do
  data_ ← ok_or (fs.fs_read path disk) (import_error path)
  ok_or (json.from_slice data_) (import_error path)

-- The newline that ends the file.
abbrev pub newline : Bytes
newline = 10 ∷ []

written : {Disk : Type 0} → FilePath → Bool × Disk → Result ConfigError Unit × Disk
written path (true, disk) = (ok tt, disk)
written path (false, disk) = (err (export_error path), disk)

write_file :
    {Disk : Type 0}
    → FileSystem Disk
    → FilePath
    → Option Bytes
    → Disk
    → Result ConfigError Unit × Disk
unfolding written
write_file fs path none disk = (panic, disk)
write_file fs path (some data_) disk =
    written path (fs.write_buffered path (data_ ∷ newline ∷ []) disk)

-- `Export::export`: the file is opened before the value is turned into text.
unfoldable pub export_file :
    {A Disk : Type 0}
    → FileSystem Disk
    → Json A
    → A
    → FilePath
    → Disk
    → Result ConfigError Unit × Disk
unfolding write_file
export_file fs json a path disk = elim (fs.open_create_write path disk) [
  | none ↦ (err (export_error path), disk)
  | some opened ↦ write_file fs path (json.to_string_pretty a) opened
]

pub record KeyPair : Type 0 where
  pub name : PublicKey
  pub secret : SecretKey

-- `KeyPair::new`, for what the generator of random numbers gives.
unfoldable pub new_key_pair : Dalek → ℕ → KeyPair
new_key_pair dalek rng =
    let (name, secret) = generate_keypair dalek rng in record { name = name; secret = secret }

-- The strings of the two fields, and the pair that is read from them.
unfoldable pub write_key_pair : Base64 → KeyPair → Text × Text
write_key_pair b k = (serialize_public b k.name, serialize_secret b k.secret)

unfoldable pub read_key_pair : Base64 → Text × Text → Result DecodeError KeyPair
read_key_pair b (name_text, secret_text) = do
  name ← deserialize_public b (some name_text)
  secret ← deserialize_secret b (some secret_text)
  ok (record { name = name; secret = secret })

-- `ThresholdKeyPair`
pub record ThresholdKeyPair (t : Scheme) : Type 0 where
  pub node_index : ℕ
  pub sk_share : t.SecretKeyShare
  pub pk_set : t.PublicKeySet

-- `ThresholdKeyPair::new`, for what the generator with this seed gives.
unfoldable pub new_threshold_key_pair : (t : Scheme) → ℕ → ℕ → ℕ → ThresholdKeyPair t
new_threshold_key_pair t threshold node_index seed =
    let sk_set = t.random threshold seed in
    record {
      node_index = node_index;
      sk_share = t.secret_key_share sk_set node_index;
      pk_set = t.public_keys sk_set;
    }
