-- ===== src/Base/Words.antt =====
-- Machine words: `u32` and `u64` arithmetic as a release build computes it, and their bytes.
use Prim.Native.Nat.{ℕ, zero, suc, ◌+◌, ◌-◌, ◌*◌, ◌/◌, ◌%◌, ◌^◌, ◌<◌, ◌≤◌}
use mathlib.Core.Path.{◌≡◌}
use mathlib.Core.List.{List, [], ◌∷◌, ◌++◌}
use native.Mathlib.Omega.{arith}

-- `a + b` on `u32`.
unfoldable pub add32 : ℕ → ℕ → ℕ
add32 a b = (a + b) % 2 ^ 32

-- `a * b` on `u32`.
unfoldable pub mul32 : ℕ → ℕ → ℕ
mul32 a b = a * b % 2 ^ 32

-- `a + b` on `u64`.
unfoldable pub add64 : ℕ → ℕ → ℕ
add64 a b = (a + b) % 2 ^ 64

-- `a - b` on `u64`.
unfoldable pub sub64 : ℕ → ℕ → ℕ
sub64 a b = (a + 2 ^ 64 - b) % 2 ^ 64

pub add32-eq-add : (a b : ℕ) → a + b < 2 ^ 32 → add32 a b ≡ a + b
unfolding add32
add32-eq-add a b h = omega arith

pub mul32-two : (a : ℕ) → 2 * a < 2 ^ 32 → mul32 2 a ≡ 2 * a
unfolding mul32
mul32-two a h = omega arith

pub add64-eq-add : (a b : ℕ) → a + b < 2 ^ 64 → add64 a b ≡ a + b
unfolding add64
add64-eq-add a b h = omega arith

pub sub64-eq-sub : (a b : ℕ) → a < 2 ^ 64 → b ≤ a → sub64 a b ≡ a - b
unfolding sub64
sub64-eq-sub a b h k = omega arith

-- `to_le_bytes` of a word of the given number of bytes.
unfoldable pub le_bytes : ℕ → ℕ → List ℕ
le_bytes zero n = []
le_bytes (suc k) n = (n % 256) ∷ le_bytes k (n / 256)

-- The bytes of a fixed array that is read as a number, the first byte the highest.
unfoldable pub be_bytes : ℕ → ℕ → List ℕ
be_bytes zero n = []
be_bytes (suc k) n = be_bytes k (n / 256) ++ (n % 256) ∷ []

-- The number that an array of bytes is read as.
unfoldable pub of_be_bytes : ℕ → List ℕ → ℕ
of_be_bytes acc [] = acc
of_be_bytes acc (b ∷ bs) = of_be_bytes (acc * 256 + b) bs

pub sub64-fits : (a b : ℕ) → sub64 a b < 2 ^ 64
unfolding sub64
sub64-fits a b = omega arith
