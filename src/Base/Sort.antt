-- ===== src/Base/Sort.antt =====
-- The standard library's stable sorts, as insertion sort: elements of one key keep their order.
use Prim.Native.Nat.{ℕ, ◌≤◌}
use mathlib.Core.Logic.{inl, inr}
use mathlib.Core.List.{List, [], ◌∷◌}
use native.Mathlib.Omega.{arith}
use narwhal_td.Base.Tests.{leb, Bool-cases, if◌then◌else◌}
use narwhal_td.Base.Lists.{All}

module _ {ℓ} {A : Type ℓ} where
  unfoldable pub insert_by : (A → ℕ) → A → List A → List A
  insert_by key a [] = a ∷ []
  insert_by key a (x ∷ xs) = if leb (key a) (key x) then a ∷ x ∷ xs else x ∷ insert_by key a xs

  unfoldable pub sort_by_key : (A → ℕ) → List A → List A
  sort_by_key key [] = []
  sort_by_key key (x ∷ xs) = insert_by key x (sort_by_key key xs)

  abbrev pub IsSortedBy : (A → ℕ) → List A → Type 0
  IsSortedBy key [] = Unit {0}
  IsSortedBy key (x ∷ xs) = All (λ y. key x ≤ key y) xs × IsSortedBy key xs

  All-insert_by {κ} :
      (P : A → Type κ) (key : A → ℕ) (a : A) (xs : List A)
      → P a
      → All P xs
      → All P (insert_by key a xs)
  unfolding insert_by
  All-insert_by P key a [] h k = (h, tt)
  All-insert_by P key a (x ∷ xs) h k = ground (arith, h, k, All-insert_by P key a xs)

  pub All-sort_by_key :
      (P : A → Type 0) (key : A → ℕ) (xs : List A) → All P xs → All P (sort_by_key key xs)
  unfolding sort_by_key
  All-sort_by_key P key [] k = tt
  All-sort_by_key P key (x ∷ xs) k =
      All-insert_by P key x (sort_by_key key xs) k.0 (All-sort_by_key P key xs k.1)

  All-above :
      (key : A → ℕ) (a x : A) (xs : List A)
      → key a ≤ key x
      → All (λ y. key x ≤ key y) xs
      → All (λ y. key a ≤ key y) xs
  All-above key a x [] h k = tt
  All-above key a x (y ∷ xs) h k = (omega (arith, k.0), All-above key a x xs h k.1)

  insert_by-IsSortedBy :
      (key : A → ℕ) (a : A) (xs : List A) → IsSortedBy key xs → IsSortedBy key (insert_by key a xs)
  unfolding insert_by
  insert_by-IsSortedBy key a [] s = (tt, tt)
  insert_by-IsSortedBy key a (x ∷ xs) s = elim (Bool-cases (leb (key a) (key x))) [
    | inl below ↦
        rw below ((ground (arith, below), All-above key a x xs (ground (arith, below)) s.0), s)
    | inr above ↦ rw above (
      All-insert_by (λ y. key x ≤ key y) key a xs (ground (arith, above)) s.0,
      insert_by-IsSortedBy key a xs s.1,
    )
  ]

  pub sort_by_key-IsSortedBy : (key : A → ℕ) (xs : List A) → IsSortedBy key (sort_by_key key xs)
  unfolding sort_by_key
  sort_by_key-IsSortedBy key [] = tt
  sort_by_key-IsSortedBy key (x ∷ xs) =
      insert_by-IsSortedBy key x (sort_by_key key xs) (sort_by_key-IsSortedBy key xs)
