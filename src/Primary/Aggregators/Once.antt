-- ===== src/Primary/Aggregators/Once.antt =====
-- How often an aggregator reports a quorum, and which, over the votes and certificates that reach it.
use narwhal_td.Base.{
  ℕ, ◌+◌, ◌≤◌, ◌<◌, ◌≡◌, ◌⊎◌, refl, true, false, List, [], ◌∷◌, arith, All, length, add32,
  add32-eq-add, leb, inl, inr, Bool-cases, sym, length-append, if◌then◌else◌,
}
use narwhal_td.Base.Map
use narwhal_td.Base.Set
use narwhal_td.Base.Set.{Distinct}
use narwhal_td.Crypto.{PublicKey, Primitives}
use narwhal_td.Config.{Committee, stake, quorum_threshold}
use narwhal_td.Config.Thresholds.{total, FitsU32, quorum_threshold-eq}
use narwhal_td.Config.Quorum.{weight, weight-le-total}
use narwhal_td.Primary.Header.{Header}
use narwhal_td.Primary.Vote.{Vote}
use narwhal_td.Primary.Certificate
use narwhal_td.Primary.Certificate.{Certificate}
use narwhal_td.Primary.Aggregators.Content.{
  reported, origins, IsAssembled, AreParentsOf, Collected-start, Gathered-start,
}
use narwhal_td.Primary.Aggregators.Runs.{
  run_votes, run_certificates, All-self, run_votes-IsAssembled, run_certificates-AreParentsOf,
}
use narwhal_td.Primary.Aggregators.{
  VotesAggregator, CertificatesAggregator, new_votes, new_certificates, append_vote,
  append_certificate,
}

-- A list of authorities, each once, on top of those used before.
abbrev pub enrol : List PublicKey → List PublicKey → List PublicKey
enrol used [] = used
enrol used (x ∷ xs) = enrol (Set.insert x used) xs

abbrev pub voters : List Vote → List PublicKey
voters [] = []
voters (vote ∷ votes) = vote.author ∷ voters votes

-- An aggregator that has reported `n` quorums, `w` its weight: before the first, the weight is that
-- of the authorities used; after it, a whole quorum more has been used.
abbrev Counted : Committee → List PublicKey → ℕ → ℕ → Type 0
Counted c used w n =
    ((n ≡ 0) × (w ≡ weight c used) × (w < quorum_threshold c))
    ⊎ ((n ≡ 1) × (w + quorum_threshold c ≤ weight c used))

insert_new :
    (x : PublicKey) (used : List PublicKey)
    → Set.contains x used ≡ false
    → Set.insert x used ≡ x ∷ used
unfolding Set.insert
insert_new x used h = rw h

insert_old :
    (x : PublicKey) (used : List PublicKey) → Set.contains x used ≡ true → Set.insert x used ≡ used
unfolding Set.insert
insert_old x used h = rw h

module _ (c : Committee) (keyed : Distinct (Map.keys c.authorities)) (fits : FitsU32 c) where
  module _ (x : PublicKey) (used : List PublicKey) (new : Set.contains x used ≡ false)
      (d : Distinct used) (w n : ℕ) (counted : Counted c used w n) where
    weight_next : stake c x + weight c used ≤ total c
    unfolding weight
    weight_next = weight-le-total c keyed (x ∷ used) (new, d)

    sum_next : add32 w (stake c x) ≡ w + stake c x
    sum_next = add32-eq-add w (stake c x) (omega (arith, weight_next))

    -- A quorum is reached by the first n = 0 only.
    Counted-reach :
        leb (quorum_threshold c) (add32 w (stake c x)) ≡ true → (n ≡ 0) × Counted c (x ∷ used) 0 1
    unfolding weight
    Counted-reach h =
        let at_least : quorum_threshold c ≤ w + stake c x = ground (arith, h, sum_next) in
        ground (arith, at_least, quorum_threshold-eq c fits, weight_next)

    Counted-stay :
        leb (quorum_threshold c) (add32 w (stake c x)) ≡ false
        → Counted c (x ∷ used) (add32 w (stake c x)) n
    unfolding weight
    Counted-stay h = ground (arith, h, sum_next)

  -- One vote: it is counted unless its author was, and the count of quorums stays right.
  abbrev Advanced : PublicKey → List PublicKey → ℕ → List PublicKey → ℕ → ℕ → Type 0
  Advanced x used n used' w' reports =
      (used' ≡ Set.insert x used) × Distinct used' × Counted c used' w' (n + reports)

  append_vote-Counted :
      (header : Header) (a : VotesAggregator) (vote : Vote) (n : ℕ)
      → Distinct a.used
      → Counted c a.used a.weight n
      → let (r, a') = append_vote a vote c header in
        Advanced vote.author a.used n a'.used a'.weight (length (reported r))
  unfolding append_vote
  append_vote-Counted header a vote n d k = elim (Bool-cases (Set.contains vote.author a.used)) [
    | inl old ↦ rw (old, insert_old vote.author a.used old) (refl, d, ground (arith, k))
    | inr new ↦
        let reach = Counted-reach vote.author a.used new d a.weight n k in
        let stay = Counted-stay vote.author a.used new d a.weight n k in
        rw (new, insert_new vote.author a.used new)
          (elim (Bool-cases (leb (quorum_threshold c) (add32 a.weight (stake c vote.author)))) [
            | inl full ↦ rw full (refl, (new, d), ground (arith, reach full))
            | inr short ↦ rw short (refl, (new, d), ground (arith, stay short))
          ])
  ]

  Advanced-reports :
      (used used' xs : List PublicKey) (x : PublicKey) (w n a b m : ℕ)
      → used' ≡ Set.insert x used
      → a + b ≡ m
      → Counted c (enrol used' xs) w (n + a + b)
      → Counted c (enrol used (x ∷ xs)) w (n + m)
  Advanced-reports used used' xs x w n a b m e s k = rw (← e) (ground (arith, s, k))

  run_votes-Counted :
      (header : Header) (a : VotesAggregator) (votes : List Vote) (n : ℕ)
      → Distinct a.used
      → Counted c a.used a.weight n
      → (w : ℕ) × Counted c
          (enrol a.used (voters votes))
          w
          (n + length (run_votes c header a votes))
  unfolding run_votes
  run_votes-Counted header a [] n d k = (a.weight, ground (arith, k))
  run_votes-Counted header a (vote ∷ votes) n d k =
      let (r, a') = append_vote a vote c header in
      let (same, d', k') = append_vote-Counted header a vote n d k in
      let (w, final) = run_votes-Counted header a' votes (n + length (reported r)) d' k' in
      (
        w,
        Advanced-reports a.used a'.used (voters votes) vote.author w n (length (reported r)) _ _
            same (sym (length-append (reported r) (run_votes c header a' votes))) final,
      )

  append_certificate-Counted :
      (p : Primitives) (a : CertificatesAggregator) (x : Certificate) (n : ℕ)
      → Distinct a.used
      → Counted c a.used a.weight n
      → let (r, a') = append_certificate p a x c in
        Advanced (Certificate.origin x) a.used n a'.used a'.weight (length (reported r))
  unfolding append_certificate
  append_certificate-Counted p a x n d k =
      let o = Certificate.origin x in
      elim (Bool-cases (Set.contains o a.used)) [
        | inl old ↦ rw (old, insert_old o a.used old) (refl, d, ground (arith, k))
        | inr new ↦
            let reach = Counted-reach o a.used new d a.weight n k in
            let stay = Counted-stay o a.used new d a.weight n k in
            rw (new, insert_new o a.used new)
              (elim (Bool-cases (leb (quorum_threshold c) (add32 a.weight (stake c o)))) [
                | inl full ↦ rw full (refl, (new, d), ground (arith, reach full))
                | inr short ↦ rw short (refl, (new, d), ground (arith, stay short))
              ])
      ]

  run_certificates-Counted :
      (p : Primitives) (a : CertificatesAggregator) (xs : List Certificate) (n : ℕ)
      → Distinct a.used
      → Counted c a.used a.weight n
      → (w : ℕ) × Counted c (enrol a.used (origins xs)) w (n + length (run_certificates p c a xs))
  unfolding run_certificates
  run_certificates-Counted p a [] n d k = (a.weight, ground (arith, k))
  run_certificates-Counted p a (x ∷ xs) n d k =
      let (r, a') = append_certificate p a x c in
      let (same, d', k') = append_certificate-Counted p a x n d k in
      let (w, final) = run_certificates-Counted p a' xs (n + length (reported r)) d' k' in
      (
        w,
        Advanced-reports a.used a'.used (origins xs) (Certificate.origin x) w n
            (length (reported r)) _ _ same
            (sym (length-append (reported r) (run_certificates p c a' xs))) final,
      )

  Counted-start : Counted c [] 0 0
  unfolding weight
  Counted-start = inl (refl, refl, omega (arith, quorum_threshold-eq c fits))

  Counted-reports :
      (used : List PublicKey) (w n : ℕ)
      → Counted c used w (0 + n)
      → n ≡ (if leb (quorum_threshold c) (weight c used) then 1 else 0)
  Counted-reports used w n k = ground (arith, k)

  -- In a committee with distinct keys whose doubled total stake fits a `u32`, a sequence of votes
  -- is assembled into exactly one certificate if its distinct authors weigh a quorum, and into
  -- none if not; votes that are refused are skipped. The certificate is of the header, and has the
  -- authors and the signatures of votes of the sequence, whose authors are distinct and weigh a
  -- quorum.
  pub votes_quorum_once :
      (header : Header) (votes : List Vote)
      → (length (run_votes c header new_votes votes)
          ≡ (if leb (quorum_threshold c) (weight c (enrol [] (voters votes))) then 1 else 0))
        × All (IsAssembled c header votes) (run_votes c header new_votes votes)
  votes_quorum_once header votes =
      let (w, k) = run_votes-Counted header new_votes votes 0 tt Counted-start in
      (
        Counted-reports (enrol [] (voters votes)) w _ k,
        run_votes-IsAssembled c header votes votes new_votes (All-self votes)
            (Collected-start c header votes),
      )

  -- In a committee with distinct keys whose doubled total stake fits a `u32`, a sequence of
  -- certificates yields the parents of the next round exactly once if its distinct origins weigh a
  -- quorum, and never if not. The parents are the digests of certificates of the sequence, whose
  -- origins are distinct and weigh a quorum.
  pub certificates_quorum_once :
      (p : Primitives) (xs : List Certificate)
      → (length (run_certificates p c new_certificates xs)
          ≡ (if leb (quorum_threshold c) (weight c (enrol [] (origins xs))) then 1 else 0))
        × All (AreParentsOf p c xs) (run_certificates p c new_certificates xs)
  certificates_quorum_once p xs =
      let (w, k) = run_certificates-Counted p new_certificates xs 0 tt Counted-start in
      (
        Counted-reports (enrol [] (origins xs)) w _ k,
        run_certificates-AreParentsOf p c xs xs new_certificates (All-self xs)
            (Gathered-start p c xs),
      )
