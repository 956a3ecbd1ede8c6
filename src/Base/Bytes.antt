-- ===== src/Base/Bytes.antt =====
-- A number and the array of its bytes.
use mathlib.Core.List.{reverse-cons, reverse-reverse}
use mathlib.Core.List.{List, [], ◌∷◌, ◌++◌, reverse}
use Prim.Native.Nat.{ℕ, zero, suc, ◌+◌, ◌*◌, ◌/◌, ◌%◌, ◌<◌}
use mathlib.Core.Path.{◌≡◌, refl, sym, ap, subst, ◌∙◌}
use native.Mathlib.Omega.{arith}
use narwhal_td.Base.Lists.{All, length}
use narwhal_td.Base.Words.{be_bytes, of_be_bytes}

-- How many numbers an array of this many bytes can hold.
unfoldable pub values : ℕ → ℕ
values zero = 1
values (suc k) = values k * 256

of_be_bytes-append :
    (acc : ℕ) (xs : List ℕ) (b : ℕ) → of_be_bytes acc (xs ++ b ∷ []) ≡ of_be_bytes acc xs * 256 + b
unfolding of_be_bytes
of_be_bytes-append acc [] b = refl
of_be_bytes-append acc (x ∷ xs) b = of_be_bytes-append (acc * 256 + x) xs b

pub of_be_bytes-be_bytes : (k n : ℕ) → n < values k → of_be_bytes 0 (be_bytes k n) ≡ n
unfolding be_bytes of_be_bytes values
of_be_bytes-be_bytes zero n h = omega (arith, h)
of_be_bytes-be_bytes (suc k) n h =
    let joined = of_be_bytes-append 0 (be_bytes k (n / 256)) (n % 256) in
    let rest = of_be_bytes-be_bytes k (n / 256) (omega (arith, h)) in omega (arith, joined, rest)

-- An array of so many bytes.
abbrev pub IsBytes : ℕ → List ℕ → Type 0
IsBytes k bs = (length bs ≡ k) × All (λ b. b < 256) bs

reversed-bytes :
    (bs : List ℕ)
    → All (λ b. b < 256) bs
    → be_bytes (length bs) (of_be_bytes 0 (reverse bs)) ≡ reverse bs
unfolding be_bytes of_be_bytes
reversed-bytes [] h = refl
reversed-bytes (b ∷ bs) h =
    let value : of_be_bytes 0 (reverse (b ∷ bs)) ≡ of_be_bytes 0 (reverse bs) * 256 + b =
      ap (of_be_bytes 0) (reverse-cons b bs) ∙ of_be_bytes-append 0 (reverse bs) b in
    let top : of_be_bytes 0 (reverse (b ∷ bs)) / 256 ≡ of_be_bytes 0 (reverse bs) =
      omega (arith, value, h.0) in
    let last : of_be_bytes 0 (reverse (b ∷ bs)) % 256 ≡ b = omega (arith, value, h.0) in
    ap (λ (n : ℕ). be_bytes (length bs) n ++ (of_be_bytes 0 (reverse (b ∷ bs)) % 256) ∷ []) top
    ∙ ap (λ (n : ℕ). be_bytes (length bs) (of_be_bytes 0 (reverse bs)) ++ n ∷ []) last
    ∙ ap (λ (xs : List ℕ). xs ++ b ∷ []) (reversed-bytes bs h.1)
    ∙ sym (reverse-cons b bs)

length-snoc : (xs : List ℕ) (b : ℕ) → length (xs ++ b ∷ []) ≡ suc (length xs)
length-snoc [] b = refl
length-snoc (x ∷ xs) b = ap suc (length-snoc xs b)

length-be_bytes : (k n : ℕ) → length (be_bytes k n) ≡ k
unfolding be_bytes
length-be_bytes zero n = refl
length-be_bytes (suc k) n =
    length-snoc (be_bytes k (n / 256)) (n % 256) ∙ ap suc (length-be_bytes k (n / 256))

All-snoc :
    (xs : List ℕ) (b : ℕ) → All (λ x. x < 256) xs → b < 256 → All (λ x. x < 256) (xs ++ b ∷ [])
All-snoc [] b h k = (k, tt)
All-snoc (x ∷ xs) b h k = (h.0, All-snoc xs b h.1 k)

All-be_bytes : (k n : ℕ) → All (λ x. x < 256) (be_bytes k n)
unfolding be_bytes
All-be_bytes zero n = tt
All-be_bytes (suc k) n = All-snoc _ _ (All-be_bytes k (n / 256)) (omega arith)

pub be_bytes-IsBytes : (k n : ℕ) → IsBytes k (be_bytes k n)
be_bytes-IsBytes k n = (length-be_bytes k n, All-be_bytes k n)

All-reverse : (xs : List ℕ) → All (λ x. x < 256) xs → All (λ x. x < 256) (reverse xs)
All-reverse [] h = tt
All-reverse (x ∷ xs) h =
    subst (All (λ x. x < 256)) (sym (reverse-cons x xs))
      (All-snoc (reverse xs) x (All-reverse xs h.1) h.0)

length-reverse : (xs : List ℕ) → length (reverse xs) ≡ length xs
length-reverse [] = refl
length-reverse (x ∷ xs) =
    ap length (reverse-cons x xs) ∙ length-snoc (reverse xs) x ∙ ap suc (length-reverse xs)

pub be_bytes-of_be_bytes : (k : ℕ) (bs : List ℕ) → IsBytes k bs → be_bytes k (of_be_bytes 0 bs) ≡ bs
be_bytes-of_be_bytes k bs h =
    let size : length (reverse bs) ≡ k = length-reverse bs ∙ h.0 in
    ap (λ (n : ℕ). be_bytes n (of_be_bytes 0 bs)) (sym size)
    ∙ ap (λ (xs : List ℕ). be_bytes (length (reverse bs)) (of_be_bytes 0 xs))
        (sym (reverse-reverse bs))
    ∙ reversed-bytes (reverse bs) (All-reverse bs h.1)
    ∙ reverse-reverse bs
