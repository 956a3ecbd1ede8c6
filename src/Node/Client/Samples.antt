-- ===== src/Node/Client/Samples.antt =====
-- The transactions of a burst, one by one.
use narwhal_td.Base.{
  subst, ℕ, zero, suc, ◌+◌, ◌-◌, ◌%◌, ◌^◌, ◌<◌, ◌≡◌, refl, sym, ap, ◌∙◌, true, false, Option, none,
  some, List, [], ◌∷◌, arith, add64, ltb, ◌==◌, if◌then◌else◌, Bool-cases, inl, inr,
}
use narwhal_td.Network.Reliable.{Bytes}
use narwhal_td.Node.Client.{Encryption, Client, transaction, build_from, build_txs}

-- The element of a list at a place.
abbrev pub get_elem? : {A : Type 0} → List A → ℕ → Option A
get_elem? [] i = none
get_elem? (x ∷ xs) zero = some x
get_elem? (x ∷ xs) (suc i) = get_elem? xs i

-- The standard transactions before place `i` of a burst, whose sample stands at place `k`.
abbrev pub standard_before : ℕ → ℕ → ℕ
standard_before k i = if ltb k i then i - 1 else i

-- The transaction at a place: the counter for the sample, and successive numbers after `r` for the others.
abbrev pub transaction_at : Encryption → Client → (ℕ → ℕ) → ℕ → ℕ → ℕ → ℕ → Bytes
transaction_at e c randomness r counter k i =
    if i == k
    then transaction e c (randomness i) 0 counter
    else transaction e c (randomness i) 1 ((r + 1 + standard_before k i) % 2 ^ 64)

standard_before-sample :
    (x k : ℕ) → (x == k) ≡ true → standard_before k (x + 1) ≡ standard_before k x
standard_before-sample x k h = ground (arith, h)

standard_before-other :
    (x k : ℕ) → (x == k) ≡ false → standard_before k (x + 1) ≡ standard_before k x + 1
standard_before-other x k h = ground (arith, h)

next_message :
    (last r s : ℕ) → last % 2 ^ 64 ≡ (r + s) % 2 ^ 64 → add64 last 1 ≡ (r + 1 + s) % 2 ^ 64
unfolding add64
next_message last r s h = omega (arith, h)

first_standard : (k : ℕ) → standard_before k 0 ≡ 0
first_standard k = ground arith

first_message : (r s : ℕ) → s ≡ 0 → r % 2 ^ 64 ≡ (r + s) % 2 ^ 64
first_message r s h = omega (arith, h)

-- From place `x` on, where the last message is `last`.
build_from-at :
    (e : Encryption) (c : Client) (randomness : ℕ → ℕ) (r counter burst x last n i j : ℕ)
    → i < n
    → x + i ≡ j
    → last % 2 ^ 64 ≡ (r + standard_before (counter % burst) x) % 2 ^ 64
    → get_elem? (build_from e c randomness counter burst x last n) i
      ≡ some (transaction_at e c randomness r counter (counter % burst) j)
unfolding build_from
build_from-at e c randomness r counter burst x last zero i j h p k = absurd (omega (arith, h))
build_from-at e c randomness r counter burst x last (suc n) zero j h p k =
    let at_place : x ≡ j = omega (arith, p) in
    subst
      (λ y.
        get_elem? (build_from e c randomness counter burst x last (suc n)) 0
        ≡ some (transaction_at e c randomness r counter (counter % burst) y))
      at_place
      (elim (Bool-cases (x == counter % burst)) [
        | inl here ↦ rw here refl
        | inr other ↦
            let message = next_message last r (standard_before (counter % burst) x) k in
            rw other (ap (λ m. some (transaction e c (randomness x) 1 m)) message)
      ])
build_from-at e c randomness r counter burst x last (suc n) (suc i) j h p k =
    elim (Bool-cases (x == counter % burst)) [
      | inl here ↦ rw here (
          build_from-at e c randomness r counter burst (x + 1) last n i j (omega (arith, h))
            (omega (arith, p))
            (k
              ∙ ap (λ s. (r + s) % 2 ^ 64) (sym (standard_before-sample x (counter % burst) here))))
      | inr other ↦ rw other (
          build_from-at e c randomness r counter burst (x + 1) (add64 last 1) n i j
            (omega (arith, h)) (omega (arith, p))
            (let message = next_message last r (standard_before (counter % burst) x) k in
              let before = standard_before-other x (counter % burst) other in
              omega (arith, message, before)))
    ]

-- In a burst of the load generator, the transaction at each place is the sample with the counter, if the
-- place is the counter modulo the length of the burst, and else a standard one, whose messages run through
-- successive numbers from the one after `r` on, modulo 2^64.
pub build_txs-at :
    (e : Encryption) (c : Client) (randomness : ℕ → ℕ) (r counter burst i : ℕ)
    → i < burst
    → get_elem? (build_txs e c randomness r counter burst) i
      ≡ some (transaction_at e c randomness r counter (counter % burst) i)
unfolding build_txs
build_txs-at e c randomness r counter burst i h =
    build_from-at e c randomness r counter burst 0 r burst i i h (omega arith)
      (first_message r (standard_before (counter % burst) 0) (first_standard (counter % burst)))
