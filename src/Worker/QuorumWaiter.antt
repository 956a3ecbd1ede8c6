-- ===== src/Worker/QuorumWaiter.antt =====
-- worker/src/quorum_waiter.rs: gathers decryption shares, then acknowledgements, for a batch.
pub mod Gather
use narwhal_td.Base.{
  ℕ, zero, suc, Option, none, some, List, [], ◌∷◌, ◌++◌, map, add32, leb, if◌then◌else◌,
}
use narwhal_td.Base.Options.{◌>>=◌}
use narwhal_td.Crypto.{PublicKey}
use narwhal_td.Config.{Committee, Stake, stake, quorum_threshold}
use narwhal_td.Worker.Platform.{
  Bytes, Batch, NodeDecryptionShares, BatchDecryptionShares, WorkerMessage, decryptable_batch,
  Platform, ThresholdDecryptionService, ciphertexts, request_decryption,
}

-- `QuorumWaiter`
pub record QuorumWaiter : Type 0 where
  pub committee : Committee
  pub stake : Stake
  pub threshold_decryption_service : ThresholdDecryptionService

-- What a wait for answers comes to: it has enough, the task panics, or it waits for more answers.
pub data Outcome (A : Type 0) : Type 0 where
  enough : A → Outcome A
  panics pending : Outcome A

-- `decrypt_shares_waiter` on the answer of a worker; `none` is a channel that was closed.
unfoldable pub decrypt_shares_waiter :
    Platform → Stake → Option Bytes → Option (Stake × NodeDecryptionShares)
decrypt_shares_waiter p stake answer = do
  bytes ← answer
  dec_shares ← p.deserialize_shares bytes
  some (stake, dec_shares)

-- The loop over the decryption shares in the order in which they arrive, when so many workers have
-- not answered yet.
unfoldable pub gather_shares :
    Stake
    → Stake
    → BatchDecryptionShares
    → ℕ
    → List (Option (Stake × NodeDecryptionShares))
    → Outcome BatchDecryptionShares
gather_shares quorum total_stake shares zero [] = panics
gather_shares quorum total_stake shares (suc unanswered) [] = pending
gather_shares quorum total_stake shares unanswered (none ∷ answers) = panics
gather_shares quorum total_stake shares unanswered (some (stake, dec_shares) ∷ answers) =
    let total = add32 total_stake stake in
    let gathered = shares ++ dec_shares ∷ [] in
    let rest = gather_shares quorum total gathered unanswered answers in
    if leb quorum total then enough gathered else rest

-- The loop over the acknowledgements: whether the batch is delivered.
unfoldable pub gather_acks : Stake → Stake → List Stake → Option Stake
gather_acks quorum total_stake [] = none
gather_acks quorum total_stake (stake ∷ answers) =
    let total = add32 total_stake stake in
    let rest = gather_acks quorum total answers in if leb quorum total then some total else rest

-- `self.committee.stake(&name)` and the waiter of each answer.
unfoldable pub wait_shares :
    Platform
    → Committee
    → List (PublicKey × Option Bytes)
    → List (Option (Stake × NodeDecryptionShares))
wait_shares p c [] = []
wait_shares p c ((name, answer) ∷ answers) =
    decrypt_shares_waiter p (stake c name) answer ∷ wait_shares p c answers

unfoldable pub our_shares : Platform → QuorumWaiter → Batch → Option NodeDecryptionShares
our_shares p k batch = do
  cts ← ciphertexts p batch
  request_decryption p k.threshold_decryption_service cts

unfoldable pub to_message : Platform → Batch → Outcome BatchDecryptionShares → Outcome Bytes
to_message p batch (enough shares) = enough (p.serialize_message (decryptable_batch batch shares))
to_message p batch panics = panics
to_message p batch pending = pending

-- The first half of the loop's body for a batch: the decryptable batch that is broadcast.
unfoldable pub decryptable :
    Platform → QuorumWaiter → Batch → ℕ → List (PublicKey × Option Bytes) → Outcome Bytes
decryptable p k batch unanswered answers = elim (our_shares p k batch) [
  | none ↦ panics
  | some ours ↦ to_message p batch (
      gather_shares (quorum_threshold k.committee) k.stake (ours ∷ []) unanswered
        (wait_shares p k.committee answers))
]

-- The second half: a batch with a quorum of acknowledgements is given to the processor.
unfoldable pub deliver : QuorumWaiter → List PublicKey → Bytes → Option Bytes
deliver k acks bytes = do
  total_stake ← gather_acks (quorum_threshold k.committee) k.stake (map (stake k.committee) acks)
  some bytes

unfoldable pub deliver_outcome :
    QuorumWaiter → List PublicKey → Outcome Bytes → Outcome (Option Bytes)
deliver_outcome k acks (enough bytes) = enough (deliver k acks bytes)
deliver_outcome k acks panics = panics
deliver_outcome k acks pending = pending

-- The loop's body for one batch, with the acknowledgements that arrive, in order.
unfoldable pub receive :
    Platform
    → QuorumWaiter
    → Batch
    → ℕ
    → List (PublicKey × Option Bytes)
    → List PublicKey
    → Outcome (Option Bytes)
receive p k batch unanswered answers acks =
    deliver_outcome k acks (decryptable p k batch unanswered answers)
