-- ===== src/Primary/Certificate/Quorum.antt =====
-- What a verified certificate shows: a quorum of distinct authorities, which overlaps any other.
use narwhal_td.Base.{
  ℕ, ◌+◌, ◌≤◌, ◌<◌, ◌≡◌, ◌↔◌, ◌⊎◌, refl, true, false, List, [], ◌∷◌, arith, any, All, add32,
  add32-eq-add, leb, sym, ◌∙◌, ap, Bool-cases, inl, inr,
}
use narwhal_td.Base.Map
use narwhal_td.Base.Set
use narwhal_td.Base.Set.{Distinct}
use narwhal_td.Base.Results.{ok, ensure, ensure-eq-ok, >>=-eq-ok}
use narwhal_td.Crypto
use narwhal_td.Crypto.{PublicKey, Signature, Primitives}
use narwhal_td.Config.{Committee, stake, quorum_threshold, validity_threshold}
use narwhal_td.Config.Thresholds.{total, FitsU32}
use narwhal_td.Config.Quorum.{weight, weight-le-total, common, quorum_intersection}
use narwhal_td.Primary.Header
use narwhal_td.Primary.Certificate.{
  Certificate, eq, genesis, digest, sum_votes, verify_votes, verify,
}

-- The authorities that signed.
abbrev pub signers : Certificate → List PublicKey
signers x = Map.keys x.votes

abbrev pub Avoids : List PublicKey → List PublicKey → Type 0
Avoids used = All (λ n. Set.contains n used ≡ false)

abbrev pub Entitled : Committee → List PublicKey → Type 0
Entitled c = All (λ n. 0 < stake c n)

Avoids-cons :
    (x : PublicKey) (used ns : List PublicKey)
    → Avoids (x ∷ used) ns
    → (Set.contains x ns ≡ false) × Avoids used ns
unfolding Set.contains
Avoids-cons x used [] h = (refl, tt)
Avoids-cons x used (n ∷ ns) h = ground (arith, Avoids-cons x used ns h.1)

cons-Avoids :
    (x : PublicKey) (used ns : List PublicKey)
    → Set.contains x ns ≡ false
    → Avoids used ns
    → Avoids (x ∷ used) ns
unfolding Set.contains
cons-Avoids x used [] h a = tt
cons-Avoids x used (n ∷ ns) h a = ground (arith, cons-Avoids x used ns)

Avoids-nil : (ns : List PublicKey) → Avoids [] ns
unfolding Set.contains
Avoids-nil [] = tt
Avoids-nil (n ∷ ns) = (refl, Avoids-nil ns)

module _ (c : Committee) (keyed : Distinct (Map.keys c.authorities)) (fits : FitsU32 c) where
  -- One more vote fits a `u32`.
  add32-stake :
      (x : PublicKey) (used : List PublicKey)
      → Set.contains x used ≡ false
      → Distinct used
      → add32 (weight c used) (stake c x) ≡ weight c used + stake c x
  unfolding weight
  add32-stake x used new d =
      add32-eq-add (weight c used) (stake c x)
        (omega (arith, weight-le-total c keyed (x ∷ used) (new, d)))

  -- The loop takes a vote of a new authority with voting rights, and stops at any other.
  sum_votes-cons :
      (used : List PublicKey) (x : PublicKey) (s : Signature) (votes : List (PublicKey × Signature))
      → Set.contains x used ≡ false
      → 0 < stake c x
      → Distinct used
      → sum_votes c (weight c used) used ((x, s) ∷ votes)
        ≡ sum_votes c (weight c (x ∷ used)) (x ∷ used) votes
  unfolding sum_votes weight Set.insert
  sum_votes-cons used x s votes new rights d =
      let sum : add32 (weight c used) (stake c x) ≡ stake c x + weight c used =
        omega (arith, add32-stake x used new d) in
      rw (new, sum) (ground arith)

  sum_votes_guard :
      (used : List PublicKey) (x : PublicKey) (s : Signature) (votes : List (PublicKey × Signature))
      (w r : ℕ)
      → sum_votes c w used ((x, s) ∷ votes) ≡ ok r
      → (Set.contains x used ≡ false) × (0 < stake c x)
  unfolding sum_votes
  sum_votes_guard used x s votes w r h = ground arith

  abbrev Summed : List PublicKey → List PublicKey → ℕ → Type 0
  Summed used ns r =
      Distinct ns × Avoids used ns × Entitled c ns × (r ≡ weight c used + weight c ns)

  sum_votes_sound :
      (used : List PublicKey) (votes : List (PublicKey × Signature)) (r : ℕ)
      → Distinct used
      → sum_votes c (weight c used) used votes ≡ ok r
      → Summed used (Map.keys votes) r
  unfolding sum_votes weight
  sum_votes_sound used [] r d h = (tt, tt, tt, ground arith)
  sum_votes_sound used ((x, s) ∷ votes) r d h =
      let (new, rights) = sum_votes_guard used x s votes (weight c used) r h in
      let (distinct, avoids, entitled, total) =
        sum_votes_sound (x ∷ used) votes r (new, d)
          (sym (sum_votes-cons used x s votes new rights d) ∙ h) in
      let (fresh, rest) = Avoids-cons x used (Map.keys votes) avoids in
      ((fresh, distinct), (new, rest), (rights, entitled), omega arith)

  sum_votes_complete :
      (used : List PublicKey) (votes : List (PublicKey × Signature))
      → Distinct used
      → Distinct (Map.keys votes)
      → Avoids used (Map.keys votes)
      → Entitled c (Map.keys votes)
      → sum_votes c (weight c used) used votes ≡ ok (weight c used + weight c (Map.keys votes))
  unfolding sum_votes weight
  sum_votes_complete used [] d k a e = ap ok (omega arith)
  sum_votes_complete used ((x, s) ∷ votes) d k a e =
      sum_votes-cons used x s votes a.0 e.0 d
      ∙ sum_votes_complete (x ∷ used) votes (a.0, d) k.1
          (cons-Avoids x used (Map.keys votes) k.0 a.1) e.1
      ∙ ap ok (omega arith)

  -- What `Certificate::verify` establishes of a certificate that is not a genesis one.
  pub record IsCertified (p : Primitives) (x : Certificate) : Type 0 where
    pub header : Header.verify p c x.header ≡ ok tt
    pub distinct : Distinct (signers x)
    pub entitled : Entitled c (signers x)
    pub quorum : quorum_threshold c ≤ weight c (signers x)
    pub signed : Crypto.verify_batch p (digest p x) x.votes ≡ true

  verify_votes_sound :
      (p : Primitives) (x : Certificate) → verify_votes p c x ≡ ok tt → IsCertified p x
  unfolding verify_votes weight
  verify_votes_sound p x h =
      let (_, header, h') = >>=-eq-ok (Header.verify p c x.header) _ h in
      let (w, sum, h'') = >>=-eq-ok (sum_votes c 0 [] x.votes) _ h' in
      let (_, quorum, signed) = >>=-eq-ok (ensure (leb (quorum_threshold c) w) _) _ h'' in
      let (distinct, avoids, entitled, total) = sum_votes_sound [] x.votes w tt sum in
      let enough : leb (quorum_threshold c) w ≡ true = ensure-eq-ok _ _ quorum in
      record {
        header = header;
        distinct = distinct;
        entitled = entitled;
        quorum = ground (arith, enough, total);
        signed = ensure-eq-ok _ _ signed;
      }

  verify_votes_complete :
      (p : Primitives) (x : Certificate) → IsCertified p x → verify_votes p c x ≡ ok tt
  unfolding verify_votes weight
  verify_votes_complete p x h =
      let sum : sum_votes c 0 [] x.votes ≡ ok (weight c (signers x)) =
        sum_votes_complete [] x.votes tt h.distinct (Avoids-nil (signers x)) h.entitled
        ∙ ap ok (omega arith) in
      rw (h.header, sum) (ground (arith, h.quorum, h.signed))

  -- In a committee with distinct keys whose doubled total stake fits a `u32`, `Certificate::verify`
  -- accepts exactly the genesis certificates and those whose header verifies and whose votes are
  -- of distinct authorities with voting rights that weigh a quorum and pass the batch verification.
  pub verify_iff :
      (p : Primitives) (x : Certificate)
      → (verify p c x ≡ ok tt) ↔ ((any (eq x) (genesis c) ≡ true) ⊎ IsCertified p x)
  unfolding verify
  verify_iff p x = elim (Bool-cases (any (eq x) (genesis c))) [
    | inl known ↦ (λ _. inl known, λ _. rw known)
    | inr fresh ↦ (
      λ h. inr (verify_votes_sound p x (rw fresh at h)),
      λ s.
          rw fresh
            (verify_votes_complete p x (elim s [ inl known ↦ cc | inr certified ↦ certified ])),
    )
  ]

  -- In a committee with distinct keys whose doubled total stake fits a `u32`, two certificates
  -- that verify and are no genesis certificates have signers in common that weigh the validity
  -- threshold, f + 1.
  pub verify_overlap :
      (p : Primitives) (x y : Certificate)
      → verify p c x ≡ ok tt
      → verify p c y ≡ ok tt
      → any (eq x) (genesis c) ≡ false
      → any (eq y) (genesis c) ≡ false
      → validity_threshold c ≤ weight c (common (signers x) (signers y))
  verify_overlap p x y vx vy nx ny = overlap ((verify_iff p x).0 vx) ((verify_iff p y).0 vy)
    where
      overlap :
          (any (eq x) (genesis c) ≡ true) ⊎ IsCertified p x
          → (any (eq y) (genesis c) ≡ true) ⊎ IsCertified p y
          → validity_threshold c ≤ weight c (common (signers x) (signers y))
      overlap (inl known) _ = cc
      overlap (inr cx) (inl known) = cc
      overlap (inr cx) (inr cy) =
          quorum_intersection c keyed fits (signers x) (signers y) cx.distinct cy.distinct cx.quorum
            cy.quorum
