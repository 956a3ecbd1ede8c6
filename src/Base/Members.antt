-- ===== src/Base/Members.antt =====
-- Membership in lists, by recursion.
use mathlib.Core.Path.{◌≡◌, sym, ap, ◌∙◌, subst}
use mathlib.Core.Logic.{◌⊎◌, inl, inr, ◌↔◌}
use mathlib.Core.Bool.{Bool, true, false}
use mathlib.Core.List.{List, [], ◌∷◌, ◌++◌}
use Prim.Native.Nat.{ℕ}
use narwhal_td.Base.Tests.{leb, Bool-cases}
use narwhal_td.Base.Lists.{All, select}
use narwhal_td.Base.Sort.{insert_by, sort_by_key}

module _ {A : Type 0} where
  abbrev pub IsIn : A → List A → Type 0
  IsIn a [] = ⊥
  IsIn a (x ∷ xs) = (a ≡ x) ⊎ IsIn a xs

  pub IsIn-All {κ} : (P : A → Type κ) (a : A) (xs : List A) → All P xs → IsIn a xs → P a
  IsIn-All P a [] h m = absurd m
  IsIn-All P a (x ∷ xs) h (inl same) = subst P (sym same) h.0
  IsIn-All P a (x ∷ xs) h (inr later) = IsIn-All P a xs h.1 later

  pub IsIn-left : (a : A) (xs ys : List A) → IsIn a xs → IsIn a (xs ++ ys)
  IsIn-left a [] ys m = absurd m
  IsIn-left a (x ∷ xs) ys (inl same) = inl same
  IsIn-left a (x ∷ xs) ys (inr later) = inr (IsIn-left a xs ys later)

  pub IsIn-right : (a : A) (xs ys : List A) → IsIn a ys → IsIn a (xs ++ ys)
  IsIn-right a [] ys h = h
  IsIn-right a (x ∷ xs) ys h = inr (IsIn-right a xs ys h)

  IsIn-second : (a b x : A) (xs : List A) → IsIn a (b ∷ xs) → IsIn a (b ∷ x ∷ xs)
  IsIn-second a b x xs (inl same) = inl same
  IsIn-second a b x xs (inr later) = inr (inr later)

  IsIn-insert_by :
      (key : A → ℕ) (a b : A) (xs : List A) → IsIn a (insert_by key b xs) ↔ IsIn a (b ∷ xs)
  unfolding insert_by
  IsIn-insert_by key a b [] = (λ h. h, λ h. h)
  IsIn-insert_by key a b (x ∷ xs) = elim (Bool-cases (leb (key b) (key x))) [
    | inl below ↦ rw below (λ h. h, λ h. h)
    | inr above ↦ rw above (
      λ h. elim h [
        | inl same ↦ inr (inl same)
        | inr later ↦ IsIn-second a b x xs ((IsIn-insert_by key a b xs).0 later)
      ],
      λ h. elim h [
        | inl same ↦ inr ((IsIn-insert_by key a b xs).1 (inl same))
        | inr (inl same) ↦ inl same
        | inr (inr later) ↦ inr ((IsIn-insert_by key a b xs).1 (inr later))
      ],
    )
  ]

  pub IsIn-sort_by_key :
      (key : A → ℕ) (a : A) (xs : List A) → IsIn a (sort_by_key key xs) ↔ IsIn a xs
  unfolding sort_by_key
  IsIn-sort_by_key key a [] = (λ h. h, λ h. h)
  IsIn-sort_by_key key a (x ∷ xs) =
      let (out, into) = IsIn-insert_by key a x (sort_by_key key xs) in
      let rest = IsIn-sort_by_key key a xs in
      (
        λ h. elim (out h) [ inl same ↦ inl same | inr later ↦ inr (rest.0 later) ],
        λ h. into (elim h [ inl same ↦ inl same | inr later ↦ inr (rest.1 later) ]),
      )

  pub IsIn-select :
      (p : A → Bool) (a : A) (xs : List A) → IsIn a (select p xs) ↔ (IsIn a xs × (p a ≡ true))
  unfolding select
  IsIn-select p a [] = (λ h. absurd h, λ h. absurd h.0)
  IsIn-select p a (x ∷ xs) = elim (Bool-cases (p x)) [
    | inl kept ↦ rw kept (
      λ h. elim h [
        | inl same ↦ (inl same, ap p same ∙ kept)
        | inr later ↦ let (i, t) = (IsIn-select p a xs).0 later in (inr i, t)
      ],
      λ h. elim h.0 [ inl same ↦ inl same | inr later ↦ inr ((IsIn-select p a xs).1 (later, h.1)) ],
    )
    | inr gone ↦ rw gone (
      λ h. let (i, t) = (IsIn-select p a xs).0 h in (inr i, t),
      λ h. elim h.0 [
        | inl same ↦ let no_ : true ≡ false = sym h.1 ∙ (ap p same ∙ gone) in cc
        | inr later ↦ (IsIn-select p a xs).1 (later, h.1)
      ],
    )
  ]
