-- ===== src/Config.antt =====
-- config/src/lib.rs: the committee, its stakes and thresholds, and the addresses of its nodes.
-- `authorities` is a `BTreeMap`: an association list in the order of the keys.
pub mod Thresholds
pub mod Tests
pub mod Files
pub mod Quorum
use narwhal_td.Base.{
  ℕ, ◌+◌, ◌*◌, ◌/◌, Bool, not, Option, none, some, List, [], ◌∷◌, length, add32, mul32, ◌==◌,
  if◌then◌else◌,
}
use narwhal_td.Base.Map
use narwhal_td.Base.Map.{Map}
use narwhal_td.Base.Results.{Result, ok, err, ok_or, ◌>>=◌}
use narwhal_td.Crypto.{PublicKey}

abbrev pub Stake : Type 0
Stake = ℕ

abbrev pub WorkerId : Type 0
WorkerId = ℕ

abbrev pub SocketAddr : Type 0
SocketAddr = ℕ

abbrev pub FilePath : Type 0
FilePath = ℕ

-- The messages of the errors on files are left out.
pub data ConfigError : Type 0 where
  not_in_committee : PublicKey → ConfigError
  unknown_worker : WorkerId → ConfigError
  import_error : FilePath → ConfigError
  export_error : FilePath → ConfigError

pub record Parameters : Type 0 where
  pub header_size : ℕ
  pub max_header_delay : ℕ
  pub gc_depth : ℕ
  pub sync_retry_delay : ℕ
  pub sync_retry_nodes : ℕ
  pub batch_size : ℕ
  pub max_batch_delay : ℕ

abbrev pub default_parameters : Parameters
default_parameters = record {
  header_size = 1_000;
  max_header_delay = 100;
  gc_depth = 50;
  sync_retry_delay = 5_000;
  sync_retry_nodes = 3;
  batch_size = 500_000;
  max_batch_delay = 100;
}

pub record PrimaryAddresses : Type 0 where
  pub primary_to_primary : SocketAddr
  pub worker_to_primary : SocketAddr

pub record WorkerAddresses : Type 0 where
  pub transactions : SocketAddr
  pub worker_to_worker : SocketAddr
  pub primary_to_worker : SocketAddr

pub record Authority : Type 0 where
  pub stake : Stake
  pub primary : PrimaryAddresses
  pub workers : Map WorkerAddresses

pub record Committee : Type 0 where
  pub authorities : Map Authority

-- `Committee::size`
unfoldable pub size : Committee → ℕ
size c = length c.authorities

abbrev pub stake_or_zero : Option Authority → Stake
stake_or_zero none = 0
stake_or_zero (some x) = x.stake

unfoldable pub stake : Committee → PublicKey → Stake
stake c name = stake_or_zero (Map.lookup name c.authorities)

-- `authorities.values().map(|x| x.stake).sum()`, on `u32`
unfoldable pub sum_stakes : Map Authority → Stake
sum_stakes [] = 0
sum_stakes ((name, x) ∷ rest) = add32 x.stake (sum_stakes rest)

unfoldable pub quorum_threshold : Committee → Stake
quorum_threshold c = add32 (mul32 2 (sum_stakes c.authorities) / 3) 1

unfoldable pub validity_threshold : Committee → Stake
validity_threshold c = add32 (sum_stakes c.authorities) 2 / 3

-- `filter(|(name, _)| name != &myself)`, then `map`
others {ℓ} : {A : Type ℓ} → (Authority → A) → PublicKey → Map Authority → List (PublicKey × A)
others f myself [] = []
others f myself ((name, x) ∷ rest) =
    let tail = others f myself rest in if not (name == myself) then (name, f x) ∷ tail else tail

pub others_stake : Committee → PublicKey → List (PublicKey × Stake)
unfolding others
others_stake c myself = others (λ x. x.stake) myself c.authorities

unfoldable pub primary : Committee → PublicKey → Result ConfigError PrimaryAddresses
primary c to = do x ← ok_or (Map.lookup to c.authorities) (not_in_committee to); ok x.primary

unfoldable pub others_primaries : Committee → PublicKey → List (PublicKey × PrimaryAddresses)
unfolding others
others_primaries c myself = others (λ x. x.primary) myself c.authorities

unfoldable pub worker : Committee → PublicKey → WorkerId → Result ConfigError WorkerAddresses
worker c to id = do
  x ← ok_or (Map.lookup to c.authorities) (not_in_committee to)
  ok_or (Map.lookup id x.workers) (not_in_committee to)

unfoldable pub our_workers : Committee → PublicKey → Result ConfigError (List WorkerAddresses)
our_workers c myself = do
  x ← ok_or (Map.lookup myself c.authorities) (not_in_committee myself)
  ok (Map.values x.workers)

abbrev cons_worker :
    PublicKey
    → Option WorkerAddresses
    → List (PublicKey × WorkerAddresses)
    → List (PublicKey × WorkerAddresses)
cons_worker name none tail = tail
cons_worker name (some addresses) tail = (name, addresses) ∷ tail

find_workers : PublicKey → WorkerId → Map Authority → List (PublicKey × WorkerAddresses)
find_workers myself id [] = []
find_workers myself id ((name, x) ∷ rest) =
    let tail = find_workers myself id rest in
    if not (name == myself) then cons_worker name (Map.lookup id x.workers) tail else tail

unfoldable pub others_workers :
    Committee → PublicKey → WorkerId → List (PublicKey × WorkerAddresses)
unfolding find_workers
others_workers c myself id = find_workers myself id c.authorities
