-- ===== src/Base/Map.antt =====
-- Maps with numbers for keys, as association lists: `HashMap` and `BTreeMap`.
use Prim.Native.Nat.{ℕ}
use mathlib.Core.Path.{◌≡◌, refl}
use mathlib.Core.Bool.{Bool, true, false, ◌||◌}
use mathlib.Core.List.{List, [], ◌∷◌}
use mathlib.Core.Option.{Option, none, some}
use native.Mathlib.Omega.{arith}
use native.Mathlib.Decide.{ℕ_discrete}
use narwhal_td.Base.Tests.{◌==◌, if◌then◌else◌}
use narwhal_td.Base.Lists.{is_empty, All}
use narwhal_td.Base.Set.{Distinct, contains}

abbrev pub Map {ℓ} : Type ℓ → Type ℓ
Map V = List (ℕ × V)

abbrev pub keys {ℓ} : {V : Type ℓ} → Map V → List ℕ
keys [] = []
keys ((j, v) ∷ m) = j ∷ keys m

abbrev pub values {ℓ} : {V : Type ℓ} → Map V → List V
values [] = []
values ((j, v) ∷ m) = v ∷ values m

module _ {ℓ} {V : Type ℓ} where
  unfoldable pub lookup : ℕ → Map V → Option V
  lookup key [] = none
  lookup key ((k, value) ∷ rest) = if k == key then some value else lookup key rest

  -- A new key goes to the end.
  unfoldable pub insert : ℕ → V → Map V → Map V
  insert key value [] = (key, value) ∷ []
  insert key value ((k, old) ∷ rest) =
      if k == key then (key, value) ∷ rest else (k, old) ∷ insert key value rest

  abbrev pub or_default : V → Option V → V
  or_default d none = d
  or_default d (some v) = v

  -- `entry(k).or_insert(d)` followed by the mutation `f` of the entry.
  unfoldable pub update : ℕ → V → (V → V) → Map V → Map V
  update k d f m = insert k (f (or_default d (lookup k m))) m

  -- `retain` with a test of the key alone.
  unfoldable pub retain : (ℕ → Bool) → Map V → Map V
  retain p [] = []
  retain p ((j, v) ∷ m) = let rest = retain p m in if p j then (j, v) ∷ rest else rest

  -- `retain` with a test of the value alone.
  unfoldable pub retain_values : (V → Bool) → Map V → Map V
  retain_values p [] = []
  retain_values p ((j, v) ∷ m) = let rest = retain_values p m in if p v then (j, v) ∷ rest else rest

  unfoldable pub remove : ℕ → Map V → Map V
  remove k [] = []
  remove k ((j, v) ∷ m) = let rest = remove k m in if j == k then rest else (j, v) ∷ rest

  pub lookup-insert :
      (key other : ℕ) (value : V) (m : Map V)
      → lookup other (insert key value m) ≡ (if key == other then some value else lookup other m)
  unfolding insert lookup
  lookup-insert key other value [] = refl
  lookup-insert key other value (entry ∷ m) = ground (arith, lookup-insert key other value m)

  pub lookup-update :
      (k j : ℕ) (d : V) (f : V → V) (m : Map V)
      → lookup j (update k d f m)
        ≡ (if k == j then some (f (or_default d (lookup k m))) else lookup j m)
  unfolding update
  lookup-update k j d f m = lookup-insert k j _ m

  pub lookup-retain :
      (p : ℕ → Bool) (j : ℕ) (m : Map V)
      → lookup j (retain p m) ≡ (if p j then lookup j m else none)
  unfolding lookup retain
  lookup-retain p j [] = ground arith
  lookup-retain p j ((i, w) ∷ m) = elim (ℕ_discrete i j) [
    | yes e ↦ rw e (ground (arith, lookup-retain p j m))
    | no e ↦ ground (arith, lookup-retain p j m)
  ]

  pub lookup-remove :
      (k j : ℕ) (m : Map V) → lookup j (remove k m) ≡ (if k == j then none else lookup j m)
  unfolding lookup remove
  lookup-remove k j [] = ground arith
  lookup-remove k j ((i, w) ∷ m) = ground (arith, lookup-remove k j m)

  pub lookup-absent : (k : ℕ) (m : Map V) → contains k (keys m) ≡ false → lookup k m ≡ none
  unfolding lookup contains
  lookup-absent k [] h = refl
  lookup-absent k ((j, v) ∷ m) h = ground (arith, lookup-absent k m)

  pub lookup-empty : (k : ℕ) (m : Map V) → is_empty m ≡ true → lookup k m ≡ none
  unfolding lookup
  lookup-empty k [] h = refl
  lookup-empty k ((j, v) ∷ m) h = cc

  pub keys-insert :
      (k j : ℕ) (v : V) (m : Map V)
      → contains j (keys (insert k v m)) ≡ (j == k || contains j (keys m))
  unfolding insert contains
  keys-insert k j v [] = refl
  keys-insert k j v ((i, w) ∷ m) = ground (arith, keys-insert k j v m)

  pub insert-Distinct :
      (k : ℕ) (v : V) (m : Map V) → Distinct (keys m) → Distinct (keys (insert k v m))
  unfolding insert contains
  insert-Distinct k v [] d = (refl, tt)
  insert-Distinct k v ((j, w) ∷ m) d =
      ground (arith, insert-Distinct k v m d.1, keys-insert k j v m)

  pub update-Distinct :
      (k : ℕ) (d : V) (f : V → V) (m : Map V) → Distinct (keys m) → Distinct (keys (update k d f m))
  unfolding update
  update-Distinct k d f m h = insert-Distinct k _ m h

  pub values-insert :
      (P : V → Type 0) (k : ℕ) (v : V) (m : Map V)
      → P v
      → All P (values m)
      → All P (values (insert k v m))
  unfolding insert
  values-insert P k v [] h k' = (h, tt)
  values-insert P k v ((j, w) ∷ m) h k' = ground (arith, h, k', values-insert P k v m h k'.1)

  pub keys-retain :
      (p : ℕ → Bool) (j : ℕ) (m : Map V)
      → contains j (keys m) ≡ false
      → contains j (keys (retain p m)) ≡ false
  unfolding retain contains
  keys-retain p j [] h = refl
  keys-retain p j ((i, w) ∷ m) h = ground (arith, keys-retain p j m)

  pub retain-Distinct :
      (p : ℕ → Bool) (m : Map V) → Distinct (keys m) → Distinct (keys (retain p m))
  unfolding retain
  retain-Distinct p [] d = tt
  retain-Distinct p ((i, w) ∷ m) d = ground (arith, retain-Distinct p m d.1, keys-retain p i m d.0)

  pub keys-retain_values :
      (p : V → Bool) (j : ℕ) (m : Map V)
      → contains j (keys m) ≡ false
      → contains j (keys (retain_values p m)) ≡ false
  unfolding retain_values contains
  keys-retain_values p j [] h = refl
  keys-retain_values p j ((i, w) ∷ m) h = ground (arith, keys-retain_values p j m)

  pub retain_values-Distinct :
      (p : V → Bool) (m : Map V) → Distinct (keys m) → Distinct (keys (retain_values p m))
  unfolding retain_values
  retain_values-Distinct p [] d = tt
  retain_values-Distinct p ((i, w) ∷ m) d =
      ground (arith, retain_values-Distinct p m d.1, keys-retain_values p i m d.0)

  pub lookup-retain_values :
      (p : V → Bool) (k : ℕ) (v : V) (m : Map V)
      → Distinct (keys m)
      → lookup k (retain_values p m) ≡ some v
      → (lookup k m ≡ some v) × (p v ≡ true)
  unfolding lookup retain_values
  lookup-retain_values p k v [] d e = cc
  lookup-retain_values p k v ((i, w) ∷ m) d e = ground (
    arith,
    lookup-retain_values p k v m d.1,
    lookup-absent k (retain_values p m),
    keys-retain_values p k m,
    d.0,
  )

  pub keys-remove :
      (k j : ℕ) (m : Map V) → contains j (keys m) ≡ false → contains j (keys (remove k m)) ≡ false
  unfolding remove contains
  keys-remove k j [] h = refl
  keys-remove k j ((i, w) ∷ m) h = ground (arith, keys-remove k j m)

  pub remove-Distinct : (k : ℕ) (m : Map V) → Distinct (keys m) → Distinct (keys (remove k m))
  unfolding remove
  remove-Distinct k [] d = tt
  remove-Distinct k ((i, w) ∷ m) d = ground (arith, remove-Distinct k m d.1, keys-remove k i m d.0)

pub ruleset map_laws = (lookup-insert, lookup-update, lookup-retain, lookup-remove)
