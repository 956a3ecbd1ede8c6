-- ===== src/Primary/Core/Process/Parents.antt =====
-- Which parents `process_header` of primary/src/core.rs takes.
use narwhal_td.Base.{
  ℕ, ◌+◌, ◌^◌, ◌≤◌, ◌<◌, ◌≡◌, ◌↔◌, refl, ap, ◌∙◌, true, List, [], ◌∷◌, All, add32, add32-eq-add,
  add64, leb, ◌==◌, arith, Bool-cases, inl, inr, ◌⊎◌,
}
use narwhal_td.Base.Results.{ok, err, panic, ensure-eq-ok}
use narwhal_td.Config.{Committee, stake, quorum_threshold}
use narwhal_td.Primary.Error.{DagError, DagResult, malformed_header}
use narwhal_td.Primary.Header.{Header}
use narwhal_td.Primary.Certificate
use narwhal_td.Primary.Certificate.{Certificate}
use narwhal_td.Primary.Core.Process.{sum_parents, enough_parents, check_parents}

-- The certificate is of the round before the header's.
abbrev pub IsParent : Header → Certificate → Type 0
IsParent header x = add64 (Certificate.round x) 1 ≡ header.round

unfoldable pub parent_stake : Committee → List Certificate → ℕ
parent_stake c [] = 0
parent_stake c (x ∷ parents) = stake c (Certificate.origin x) + parent_stake c parents

abbrev Summed : Committee → Header → ℕ → List Certificate → Type 0
Summed c header w parents =
    (All (IsParent header) parents
      × (sum_parents c header w parents ≡ ok (w + parent_stake c parents)))
    ⊎ ((All (IsParent header) parents → ⊥)
        × (sum_parents c header w parents ≡ err (malformed_header header.id)))

sum_parents-Summed :
    (c : Committee) (header : Header) (w : ℕ) (parents : List Certificate)
    → w + parent_stake c parents < 2 ^ 32
    → Summed c header w parents
unfolding sum_parents parent_stake
sum_parents-Summed c header w [] fits = inl (tt, ap ok (omega arith))
sum_parents-Summed c header w (x ∷ parents) fits =
    let s = stake c (Certificate.origin x) in
    let sum = add32-eq-add w s (omega (arith, fits)) in
    elim (Bool-cases (add64 (Certificate.round x) 1 == header.round)) [
      | inr other ↦ inr (λ h. ground (arith, other, h.0), rw other refl)
      | inl same ↦ elim (sum_parents-Summed c header (w + s) parents (omega (arith, fits))) [
        | inl (rest, summed) ↦
            inl ((ground (arith, same), rest), rw same (rw sum (summed ∙ ap ok (omega arith))))
        | inr (malformed, failed) ↦ inr (λ h. malformed h.1, rw same (rw sum failed))
      ]
    ]

add32-le : (x y : ℕ) → add32 x y ≤ x + y
unfolding add32
add32-le x y = omega arith

failed-ok : {A : Type 0} (e : DagError) (a : A) (r : DagResult A) → r ≡ err e → r ≡ ok a → ⊥
failed-ok e a r h k = cc

enough_parents-ok :
    (c : Committee) (header : Header) (r : DagResult ℕ)
    → enough_parents c header r ≡ ok tt
    → (x : ℕ) × (r ≡ ok x) × (quorum_threshold c ≤ x)
unfolding enough_parents
enough_parents-ok c header (ok x) e = (x, refl, ground (arith, ensure-eq-ok _ _ e))
enough_parents-ok c header (err f) e = absurd (failed-ok _ _ _ refl e)
enough_parents-ok c header panic e = cc

sum_parents_sound :
    (c : Committee) (header : Header) (w x : ℕ) (parents : List Certificate)
    → sum_parents c header w parents ≡ ok x
    → All (IsParent header) parents × (x ≤ w + parent_stake c parents)
unfolding sum_parents parent_stake
sum_parents_sound c header w x [] e = (tt, ground (arith, e))
sum_parents_sound c header w x (y ∷ parents) e =
    let s = stake c (Certificate.origin y) in
    elim (Bool-cases (add64 (Certificate.round y) 1 == header.round)) [
      | inl same ↦
          let (rest, enough) = sum_parents_sound c header (add32 w s) x parents (rw same at e) in
          ((ground (arith, same), rest), omega (arith, enough, add32-le w s))
      | inr other ↦ absurd (failed-ok _ _ _ refl (rw other at e))
    ]

-- The parents that pass are of the round before, and their stakes weigh a quorum.
pub check_parents_sound :
    (c : Committee) (header : Header) (parents : List Certificate)
    → check_parents c header parents ≡ ok tt
    → All (IsParent header) parents × (quorum_threshold c ≤ parent_stake c parents)
unfolding check_parents
check_parents_sound c header parents e =
    let (x, summed, enough) = enough_parents-ok c header (sum_parents c header 0 parents) e in
    let (all, below) = sum_parents_sound c header 0 x parents summed in
    (all, omega (arith, enough, below))

-- The parents of a header pass exactly if each is of the round before it and their stakes weigh a quorum,
-- where the sum of the stakes fits 32 bits.
pub check_parents_iff :
    (c : Committee) (header : Header) (parents : List Certificate)
    → parent_stake c parents < 2 ^ 32
    → (check_parents c header parents ≡ ok tt)
      ↔ (All (IsParent header) parents × (quorum_threshold c ≤ parent_stake c parents))
unfolding check_parents enough_parents
check_parents_iff c header parents fits =
    elim (sum_parents-Summed c header 0 parents (omega (arith, fits))) [
      | inl (all, summed) ↦ (
        λ e. (all, ground (arith, ensure-eq-ok _ _ (rw summed at e))),
        λ h.
            let enough : leb (quorum_threshold c) (0 + parent_stake c parents) ≡ true =
              ground (arith, h.1) in
            rw summed (rw enough refl),
      )
      | inr (malformed, failed) ↦ (
        λ e. absurd (failed-ok _ _ _ (ap (enough_parents c header) failed) e),
        λ h. absurd (malformed h.0),
      )
    ]
