-- ===== src/Consensus/Order/Occurrences.antt =====
-- How often a list of certificates holds a round and an origin.
use narwhal_td.Base.{
  ℕ, ◌+◌, ◌≤◌, ◌<◌, ◌≡◌, refl, Bool, false, ◌&&◌, List, [], ◌∷◌, arith, leb, ◌==◌, select,
  if◌then◌else◌, Bool-cases, inl, inr,
}
use narwhal_td.Crypto.{PublicKey}
use narwhal_td.Primary.Header.{Round}
use narwhal_td.Primary.Certificate
use narwhal_td.Primary.Certificate.{Certificate}
use narwhal_td.Base.Sort.{insert_by, sort_by_key}

-- How many certificates of a list have the round and the origin.
unfoldable pub occurrences : Round → PublicKey → List Certificate → ℕ
occurrences r n [] = 0
occurrences r n (x ∷ xs) =
    (if Certificate.round x == r && Certificate.origin x == n then 1 else 0) + occurrences r n xs

pub not_counted : (r x : Round) (b : Bool) → x < r → (x == r && b) ≡ false
not_counted r x b h = ground (arith, h)

insert_by-occurrences :
    (r : Round) (n : PublicKey) (x : Certificate) (xs : List Certificate)
    → occurrences r n (insert_by Certificate.round x xs) ≡ occurrences r n (x ∷ xs)
unfolding insert_by occurrences
insert_by-occurrences r n x [] = refl
insert_by-occurrences r n x (y ∷ xs) =
    elim (Bool-cases (leb (Certificate.round x) (Certificate.round y))) [
      | inl before ↦ rw before refl
      | inr after ↦ rw after (omega (arith, insert_by-occurrences r n x xs))
    ]

pub sort-occurrences :
    (r : Round) (n : PublicKey) (xs : List Certificate)
    → occurrences r n (sort_by_key Certificate.round xs) ≡ occurrences r n xs
unfolding sort_by_key occurrences
sort-occurrences r n [] = refl
sort-occurrences r n (x ∷ xs) =
    let put = insert_by-occurrences r n x (sort_by_key Certificate.round xs) in
    omega (arith, put, sort-occurrences r n xs)

pub select-occurrences :
    (r : Round) (n : PublicKey) (t : Certificate → Bool) (xs : List Certificate)
    → occurrences r n (select t xs) ≤ occurrences r n xs
unfolding select occurrences
select-occurrences r n t [] = omega arith
select-occurrences r n t (x ∷ xs) = elim (Bool-cases (t x)) [
  | inl kept ↦ rw kept (omega (arith, select-occurrences r n t xs))
  | inr dropped ↦ rw dropped (omega (arith, select-occurrences r n t xs))
]

pub singleton-occurrences :
    (r : Round) (n : PublicKey) (x : Certificate)
    → (occurrences r n (x ∷ []) ≤ 1) × (r < Certificate.round x → occurrences r n (x ∷ []) ≡ 0)
unfolding occurrences
singleton-occurrences r n x = (ground arith, λ h. ground (arith, h))
