-- ===== src/Config/Thresholds.antt =====
-- The thresholds of config/src/lib.rs as arithmetic, while the total stake fits.
use narwhal_td.Base.{ℕ, ◌+◌, ◌*◌, ◌/◌, ◌<◌, ◌^◌, ◌≡◌, refl, [], ◌∷◌, arith, add32-eq-add, mul32-two}
use narwhal_td.Base.Map.{Map}
use narwhal_td.Config.{Committee, Authority, sum_stakes, quorum_threshold, validity_threshold}

-- The sum of the stakes, with no wrap-around.
unfoldable pub total_of : Map Authority → ℕ
total_of [] = 0
total_of ((name, x) ∷ rest) = x.stake + total_of rest

abbrev pub total : Committee → ℕ
total c = total_of c.authorities

-- Twice the total stake fits a `u32`.
abbrev pub FitsU32 : Committee → Type 0
FitsU32 c = 2 * total c + 2 < 2 ^ 32

sum_stakes-eq-total : (m : Map Authority) → total_of m < 2 ^ 32 → sum_stakes m ≡ total_of m
unfolding sum_stakes total_of
sum_stakes-eq-total [] h = refl
sum_stakes-eq-total ((name, x) ∷ rest) h =
    let ih : sum_stakes rest ≡ total_of rest = sum_stakes-eq-total rest (omega arith) in
    omega (arith, ih, add32-eq-add x.stake (sum_stakes rest))

pub quorum_threshold-eq : (c : Committee) → FitsU32 c → quorum_threshold c ≡ 2 * total c / 3 + 1
unfolding quorum_threshold
quorum_threshold-eq c h =
    let s : sum_stakes c.authorities ≡ total c = sum_stakes-eq-total c.authorities (omega arith) in
    rw s (rw (mul32-two (total c) (omega arith)) (add32-eq-add _ 1 (omega arith)))

pub validity_threshold-eq : (c : Committee) → FitsU32 c → validity_threshold c ≡ (total c + 2) / 3
unfolding validity_threshold
validity_threshold-eq c h =
    let s : sum_stakes c.authorities ≡ total c = sum_stakes-eq-total c.authorities (omega arith) in
    rw s (rw (add32-eq-add (total c) 2 (omega arith)))

-- While twice the total stake fits a `u32`: with f faulty of N = 3f + 1 + k stake, k < 3, the quorum
-- is N - f and the validity threshold is f + 1.
pub thresholds_of_faults :
    (c : Committee) (f k : ℕ)
    → FitsU32 c
    → total c ≡ 3 * f + 1 + k
    → k < 3
    → (quorum_threshold c + f ≡ total c) × (validity_threshold c ≡ f + 1)
thresholds_of_faults c f k h e b =
    rw (quorum_threshold-eq c h, validity_threshold-eq c h) (omega arith)
