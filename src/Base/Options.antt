-- ===== src/Base/Options.antt =====
-- Code that may panic: `none` is the panic.
use mathlib.Core.Path.{◌≡◌, refl}
use mathlib.Core.Option.{Option, none, some, none-ne-some}

infixl 5 ◌>>=◌
abbrev pub ◌>>=◌ {ℓ κ} : {A : Type ℓ} {B : Type κ} → Option A → (A → Option B) → Option B
some x >>= k = k x
none >>= k = none

pub >>=-eq-some {ℓ κ} :
    {A : Type ℓ} {B : Type κ} (o : Option A) (k : A → Option B) {value : B}
    → (o >>= k) ≡ some value
    → (x : A) × (o ≡ some x) × (k x ≡ some value)
>>=-eq-some (some x) k e = (x, refl, e)
>>=-eq-some none k e = absurd (none-ne-some _ e)
