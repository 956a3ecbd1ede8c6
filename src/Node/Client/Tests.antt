-- ===== src/Node/Client/Tests.antt =====
-- A burst of three, of the fifth tick.
use narwhal_td.Base.{◌≡◌, refl, ◌%◌, some, [], ◌∷◌, arith, le_bytes, be_bytes, add64}
use narwhal_td.Node.Client
use narwhal_td.Node.Client.{Encryption, Client, build_txs, burst_of, is_too_small}
use narwhal_td.Node.Client.Samples.{get_elem?, transaction_at, build_txs-at}

-- No encryption at all.
abbrev plain : Encryption
plain = record { serialized_ciphertext = λ pk msg randomness. msg }

abbrev client : Client
client = record { target = 1; threshold_pk = 0; size = 9; rate = 60; nodes = [] }

build_txs-at_example :
    get_elem? (build_txs plain client (λ x. x) 41 5 (burst_of client)) 2
    ≡ some (transaction_at plain client (λ x. x) 41 5 (5 % burst_of client) 2)
build_txs-at_example = build_txs-at plain client (λ x. x) 41 5 (burst_of client) 2 (omega arith)

-- The sample stands last, after the messages 42 and 43. Each transaction has the message twice and the
-- suffix byte: 17 bytes, although `size` is 9, which is not too small.
burst :
    build_txs plain client (λ x. x) 41 5 (burst_of client)
    ≡ (42 ∷ 0 ∷ 0 ∷ 0 ∷ 0 ∷ 0 ∷ 0 ∷ 0 ∷ 1 ∷ 0 ∷ 0 ∷ 0 ∷ 0 ∷ 0 ∷ 0 ∷ 0 ∷ 42 ∷ [])
      ∷ (43 ∷ 0 ∷ 0 ∷ 0 ∷ 0 ∷ 0 ∷ 0 ∷ 0 ∷ 1 ∷ 0 ∷ 0 ∷ 0 ∷ 0 ∷ 0 ∷ 0 ∷ 0 ∷ 43 ∷ [])
      ∷ (5 ∷ 0 ∷ 0 ∷ 0 ∷ 0 ∷ 0 ∷ 0 ∷ 0 ∷ 0 ∷ 0 ∷ 0 ∷ 0 ∷ 0 ∷ 0 ∷ 0 ∷ 0 ∷ 5 ∷ [])
      ∷ []
unfolding build_txs Client.build_from le_bytes be_bytes add64
burst = refl
