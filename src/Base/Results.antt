-- ===== src/Base/Results.antt =====
-- The result of code that may fail: `Result<T, E>`, with the panics of `unwrap` and `expect`.
use mathlib.Core.Path.{◌≡◌, refl}
use mathlib.Core.Bool.{Bool, true, false}
use mathlib.Core.Option.{Option, none, some}
use native.Mathlib.Omega.{arith}

pub data Result {ℓ} (E A : Type ℓ) : Type ℓ where
  ok : A → Result E A
  err : E → Result E A
  panic : Result E A

infixl 5 ◌>>=◌ ◌>>◌
abbrev pub ◌>>=◌ {ℓ} : {E A B : Type ℓ} → Result E A → (A → Result E B) → Result E B
panic >>= k = panic
err failure >>= k = err failure
ok x >>= k = k x

abbrev pub ◌>>◌ {ℓ} : {E A B : Type ℓ} → Result E A → Result E B → Result E B
m >> k = m >>= λ _. k

-- `ensure!(b, e)`.
abbrev pub ensure : {E : Type 0} → Bool → E → Result E Unit
ensure true e = ok tt
ensure false e = err e

-- `ok_or_else`.
abbrev pub ok_or {ℓ} : {E A : Type ℓ} → Option A → E → Result E A
ok_or none e = err e
ok_or (some a) e = ok a

-- `map_err`.
abbrev pub map_err {ℓ} : {E F A : Type ℓ} → (E → F) → Result E A → Result F A
map_err f (ok a) = ok a
map_err f (err e) = err (f e)
map_err f panic = panic

pub >>=-eq-ok {ℓ} :
    {E A B : Type ℓ} (r : Result E A) (k : A → Result E B) {value : B}
    → (r >>= k) ≡ ok value
    → (x : A) × (r ≡ ok x) × (k x ≡ ok value)
>>=-eq-ok panic k e = cc
>>=-eq-ok (err failure) k e = cc
>>=-eq-ok (ok x) k e = (x, refl, e)

pub ensure-eq-ok : {E : Type 0} (e : E) (b : Bool) → ensure b e ≡ ok tt → b ≡ true
ensure-eq-ok e true h = refl
ensure-eq-ok e false h = cc

pub ok-same : {E A : Type 0} (x y : A) (r : Result E A) → r ≡ ok x → r ≡ ok y → x ≡ y
ok-same x y r h k = ground arith

pub ok-injective : {E A : Type 0} (x y : A) → ◌≡◌ {A = Result E A} (ok x) (ok y) → x ≡ y
ok-injective {E = E} x y h = ok-same {E = E} x y (ok x) refl h
