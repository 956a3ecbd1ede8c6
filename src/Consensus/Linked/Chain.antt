-- ===== src/Consensus/Linked/Chain.antt =====
-- The paths of the DAG from a leader down to an earlier one, against `linked`.
use mathlib.Core.Option.{some-injective, none-ne-some}
use narwhal_td.Base.{
  ℕ, zero, suc, ◌+◌, ◌-◌, ◌≡◌, ◌↔◌, ◌⊎◌, refl, Bool, true, false, some, List, [], ◌∷◌, any, ap,
  subst, Bool-cases, Option-cases, inl, inr, if◌then◌else◌,
}
use narwhal_td.Base.Map
use narwhal_td.Base.Set
use narwhal_td.Base.Options.{>>=-eq-some}
use narwhal_td.Crypto.{Digest}
use narwhal_td.Primary.Header.{Round}
use narwhal_td.Primary.Certificate
use narwhal_td.Primary.Certificate.{Certificate}
use narwhal_td.Consensus.State.{Authorities, Dag}
use narwhal_td.Consensus.Linked.{is_parent, parents_in, walk, linked}

-- A member of a list, at its place.
pub data Member {ℓ} {A : Type ℓ} (a : A) : List A → Type ℓ where
  here : (xs : List A) → Member a (a ∷ xs)
  there : (x : A) {xs : List A} → Member a xs → Member a (x ∷ xs)

-- A path of `n` steps from `x`, each to a parent that the DAG holds in the round below, down to a
-- certificate of round `lo` that is equal to `y`.
pub data Chain (dag : Dag) (y : Certificate) (lo : Round) : ℕ → Certificate → Type 0 where
  arrive : {x : Certificate} → Certificate.eq x y ≡ true → Chain dag y lo 0 x
  descend :
      {n : ℕ} {x z : Certificate} (name : ℕ) (digest : Digest) (authorities : Authorities)
      → Map.lookup (lo + n) dag ≡ some authorities
      → Member (name, (digest, z)) authorities
      → Set.contains digest x.header.parents ≡ true
      → Chain dag y lo n z
      → Chain dag y lo (suc n) x

not-Member-nil : {A : Type 0} {a : A} → ¬ Member a []
not-Member-nil m = elim m [ ]

any-Member :
    {A : Type 0} (p : A → Bool) (xs : List A)
    → any p xs ≡ true
    → (x : A) × Member x xs × (p x ≡ true)
unfolding any
any-Member p [] h = cc
any-Member p (x ∷ xs) h = elim (Bool-cases (p x)) [
  | inl e ↦ (x, here xs, e)
  | inr e ↦ let (y, m, k) = any-Member p xs (rw e at h) in (y, there x m, k)
]

Member-any :
    {A : Type 0} (p : A → Bool) {x : A} {xs : List A} → Member x xs → p x ≡ true → any p xs ≡ true
unfolding any
Member-any p (here xs) e = rw e
Member-any p (there y {xs} m) e = elim (Bool-cases (p y)) [
  | inl k ↦ rw k
  | inr k ↦ rw k (Member-any p m e)
]

-- A list with or without one more element.
abbrev with_if {ℓ} : {A : Type ℓ} → Bool → A → List A → List A
with_if b c t = if b then c ∷ t else t

with_if-Member :
    {A : Type 0} (b : Bool) (c : A) (t : List A) (z : A)
    → Member z (with_if b c t)
    → ((b ≡ true) × (z ≡ c)) ⊎ Member z t
with_if-Member true c t z (here _) = inl (refl, refl)
with_if-Member true c t z (there _ m) = inr m
with_if-Member false c t z m = inr m

Member-with_if_self :
    {A : Type 0} (b : Bool) (c : A) (t : List A) → b ≡ true → Member c (with_if b c t)
Member-with_if_self b c t e = rw e (here t)

Member-with_if :
    {A : Type 0} (b : Bool) (c : A) (t : List A) {z : A} → Member z t → Member z (with_if b c t)
Member-with_if true c t m = there c m
Member-with_if false c t m = m

parents_in-Member :
    (authorities : Authorities) (ps : List Certificate) (z : Certificate)
    → Member z (parents_in authorities ps)
    → (name : ℕ) × (d : Digest) × Member (name, (d, z)) authorities × (is_parent d ps ≡ true)
unfolding parents_in
parents_in-Member [] ps z m = absurd (not-Member-nil m)
parents_in-Member ((name, (d, c)) ∷ rest) ps z m =
    elim (with_if-Member (is_parent d ps) c (parents_in rest ps) z m) [
      | inl (e, same) ↦ (name, d, rw same (here rest), e)
      | inr held ↦
          let (name', d', k, e) = parents_in-Member rest ps z held in (name', d', there _ k, e)
    ]

Member-parents_in :
    (ps : List Certificate) (name : ℕ) (d : Digest) (z : Certificate) {authorities : Authorities}
    → Member (name, (d, z)) authorities
    → is_parent d ps ≡ true
    → Member z (parents_in authorities ps)
unfolding parents_in
Member-parents_in ps name d z (here rest) e = Member-with_if_self (is_parent d ps) z _ e
Member-parents_in ps name d z (there y m) e =
    Member-with_if (is_parent y.1.0 ps) y.1.1 _ (Member-parents_in ps name d z m e)

walk_sound :
    (dag : Dag) (y : Certificate) (lo : Round) (n : ℕ) (ps qs : List Certificate)
    → walk dag lo n ps ≡ some qs
    → any (λ x. Certificate.eq x y) qs ≡ true
    → (x : Certificate) × Member x ps × Chain dag y lo n x
unfolding walk
walk_sound dag y lo zero ps qs h e =
    let (x, m, k) = any-Member (λ x. Certificate.eq x y) ps (rw (some-injective _ _ h) e) in
    (x, m, arrive k)
walk_sound dag y lo (suc n) ps qs h e = elim (Option-cases (Map.lookup (lo + n) dag)) [
  | inl missing ↦ absurd (none-ne-some _ (rw missing at h))
  | inr (authorities, at) ↦
      let (z, mz, chain) = walk_sound dag y lo n (parents_in authorities ps) qs (rw at at h) e in
      let (name, d, held, parent) = parents_in-Member authorities ps z mz in
      let (x, mx, k) = any-Member (λ x. Set.contains d x.header.parents) ps parent in
      (x, mx, descend name d authorities at held k chain)
]

walk_complete :
    (dag : Dag) (y : Certificate) (lo : Round) (n : ℕ) (ps : List Certificate) (x : Certificate)
    → Member x ps
    → Chain dag y lo n x
    → (qs : List Certificate) × (walk dag lo n ps ≡ some qs)
      × (any (λ x. Certificate.eq x y) qs ≡ true)
unfolding walk
walk_complete dag y lo zero ps x m (arrive e) = (ps, refl, Member-any (λ x. Certificate.eq x y) m e)
walk_complete dag y lo (suc n) ps x m
      (descend {z = z} name d authorities held-at held parent rest) =
    let up = Member-any (λ x. Set.contains d x.header.parents) m parent in
    let (qs, w, e) =
      walk_complete dag y lo n (parents_in authorities ps) z (Member-parents_in ps name d z held up)
        rest in
    (qs, rw held-at w, e)

Member-one : {A : Type 0} {a b : A} → Member a (b ∷ []) → a ≡ b
Member-one (here _) = refl
Member-one (there _ m) = absurd (not-Member-nil m)

-- `linked` finds that two leaders are linked exactly if the DAG holds a path from the first, one
-- round at a time and each step to a parent, down to a certificate of the second's round that is
-- equal to the second.
pub linked_iff :
    (l prev : Certificate) (dag : Dag)
    → (linked l prev dag ≡ some true)
      ↔ Chain dag prev (Certificate.round prev) (Certificate.round l - Certificate.round prev) l
unfolding linked
linked_iff l prev dag =
    let lo = Certificate.round prev in
    let n = Certificate.round l - lo in
    (
      λ h.
          let (qs, w, e) = >>=-eq-some (walk dag lo n (l ∷ [])) _ h in
          let (x, m, chain) = walk_sound dag prev lo n (l ∷ []) qs w (some-injective _ _ e) in
          subst (Chain dag prev lo n) (Member-one m) chain,
      λ chain.
          let (qs, w, e) = walk_complete dag prev lo n (l ∷ []) l (here []) chain in
          rw w (ap some e),
    )
