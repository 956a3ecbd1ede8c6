-- ===== src/Node/Client.antt =====
-- node/src/benchmark_client.rs: the load generator, up to its connection.
pub mod Samples
mod Tests
use narwhal_td.Base.{
  ℕ, zero, suc, ◌+◌, ◌/◌, ◌%◌, Bool, true, false, List, [], ◌∷◌, ◌++◌, le_bytes, be_bytes, add64,
  ltb, ◌==◌, if◌then◌else◌,
}
use narwhal_td.Base.Results.{Result, ok, err}
use narwhal_td.Config.{SocketAddr}
use narwhal_td.Network.Reliable.{Bytes}

-- The key's `encrypt` with what bincode makes of its ciphertext, for the randomness of the call.
pub record Encryption : Type 0 where
  pub serialized_ciphertext : ℕ → Bytes → ℕ → Bytes

-- `Client`
pub record Client : Type 0 where
  pub target : SocketAddr
  pub threshold_pk : ℕ
  pub size : ℕ
  pub rate : ℕ
  pub nodes : List SocketAddr

abbrev pub precision : ℕ
precision = 20

abbrev pub burst_duration : ℕ
burst_duration = 1000 / precision

-- The transactions of a burst.
abbrev pub burst_of : Client → ℕ
burst_of c = c.rate / precision

-- The check before `send` connects.
abbrev pub is_too_small : Client → Bool
is_too_small c = ltb c.size 9

-- A transaction: the ciphertext, the suffix byte and the message.
abbrev pub transaction : Encryption → Client → ℕ → ℕ → ℕ → Bytes
transaction e c randomness suffix_byte msg =
    e.serialized_ciphertext c.threshold_pk (le_bytes 8 msg) randomness
    ++ suffix_byte ∷ be_bytes 8 msg

-- The loop of `build_txs` from the transaction `x` on, where `r` is the last message of a standard one;
-- `randomness` gives what the encryption of each takes.
unfoldable pub build_from : Encryption → Client → (ℕ → ℕ) → ℕ → ℕ → ℕ → ℕ → ℕ → List Bytes
build_from e c randomness counter burst x r zero = []
build_from e c randomness counter burst x r (suc n) =
    let is_sample = x == counter % burst in
    let next = if is_sample then r else add64 r 1 in
    let rest = build_from e c randomness counter burst (x + 1) next n in
    (if is_sample
      then transaction e c (randomness x) 0 counter
      else transaction e c (randomness x) 1 next)
    ∷ rest

-- `Client::build_txs`; `r` is the number that the generator gives.
unfoldable pub build_txs : Encryption → Client → (ℕ → ℕ) → ℕ → ℕ → ℕ → List Bytes
build_txs e c randomness r counter burst = build_from e c randomness counter burst 0 r burst
