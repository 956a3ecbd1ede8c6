-- ===== src/Base/Set.antt =====
-- Sets of numbers, as lists: `HashSet` and `BTreeSet` of keys and digests.
use Prim.Native.Nat.{ℕ}
use mathlib.Core.Path.{◌≡◌, refl}
use mathlib.Core.Bool.{Bool, false, ◌||◌}
use mathlib.Core.List.{List, [], ◌∷◌, ◌++◌}
use native.Mathlib.Omega.{arith}
use narwhal_td.Base.Tests.{◌==◌, if◌then◌else◌}

unfoldable pub contains : ℕ → List ℕ → Bool
contains a [] = false
contains a (x ∷ xs) = a == x || contains a xs

-- The set with `a`; `HashSet::insert` returns whether `a` is new, which is `not (contains a xs)`.
unfoldable pub insert : ℕ → List ℕ → List ℕ
insert a xs = if contains a xs then xs else a ∷ xs

abbrev pub Distinct : List ℕ → Type 0
Distinct [] = Unit {0}
Distinct (x ∷ xs) = (contains x xs ≡ false) × Distinct xs

pub contains-insert : (a b : ℕ) (xs : List ℕ) → contains b (insert a xs) ≡ (b == a || contains b xs)
unfolding insert contains
contains-insert a b xs = ground arith

pub insert-Distinct : (a : ℕ) (xs : List ℕ) → Distinct xs → Distinct (insert a xs)
unfolding insert
insert-Distinct a xs d = ground arith

pub contains-append :
    (a : ℕ) (xs ys : List ℕ) → contains a (xs ++ ys) ≡ (contains a xs || contains a ys)
unfolding contains
contains-append a [] ys = refl
contains-append a (x ∷ xs) ys = ground (arith, contains-append a xs ys)
