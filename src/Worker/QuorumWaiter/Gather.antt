-- ===== src/Worker/QuorumWaiter/Gather.antt =====
-- When the quorum waiter has enough decryption shares, and when it panics.
use narwhal_td.Base.{
  ℕ, zero, suc, ◌+◌, ◌^◌, ◌<◌, ◌≡◌, refl, Option, none, some, List, [], ◌∷◌, ◌++◌, map, arith,
  add32,
}
use narwhal_td.Config.{Stake}
use narwhal_td.Worker.Platform.{NodeDecryptionShares, BatchDecryptionShares}
use narwhal_td.Worker.QuorumWaiter.{panics, gather_shares}

abbrev pub total_of : List (Stake × NodeDecryptionShares) → ℕ
total_of [] = 0
total_of ((s, x) ∷ xs) = s + total_of xs

-- For a quorum that fits a `u32`: one answer that fails before the stake of the answers reaches
-- the quorum makes the loop end in a panic, whatever answers come after it and however many are
-- still to come.
pub gather_shares-failed :
    (quorum total_stake : Stake) (shares : BatchDecryptionShares) (unanswered : ℕ)
    (before : List (Stake × NodeDecryptionShares))
    (after : List (Option (Stake × NodeDecryptionShares)))
    → quorum < 2 ^ 32
    → total_stake + total_of before < quorum
    → gather_shares quorum total_stake shares unanswered (map some before ++ none ∷ after) ≡ panics
unfolding gather_shares add32
gather_shares-failed quorum total shares zero [] after fits low = refl
gather_shares-failed quorum total shares (suc n) [] after fits low = refl
gather_shares-failed quorum total shares zero ((s, x) ∷ before) after fits low =
    ground
      (arith, gather_shares-failed quorum (total + s) (shares ++ x ∷ []) zero before after fits)
gather_shares-failed quorum total shares (suc n) ((s, x) ∷ before) after fits low =
    ground
      (arith, gather_shares-failed quorum (total + s) (shares ++ x ∷ []) (suc n) before after fits)
