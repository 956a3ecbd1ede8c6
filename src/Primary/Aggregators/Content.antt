-- ===== src/Primary/Aggregators/Content.antt =====
-- What an aggregator of primary/src/aggregators.rs reports when it has a quorum.
use narwhal_td.Base.{
  ℕ, ◌+◌, ◌≤◌, ◌≡◌, refl, sym, ap, ◌∙◌, subst, true, false, Option, none, some, List, [], ◌∷◌, ◌++◌,
  map, All, All-append, arith, add32, leb, Bool-cases, inl, inr,
}
use mathlib.Core.List.{map-append}
use narwhal_td.Base.Map
use narwhal_td.Base.Set
use narwhal_td.Base.Set.{Distinct, contains-append, contains-insert}
use narwhal_td.Base.Members.{IsIn}
use narwhal_td.Base.Results.{ok, err, panic}
use narwhal_td.Crypto.{PublicKey, Digest, Signature, Primitives}
use narwhal_td.Config.{Committee, stake, quorum_threshold}
use narwhal_td.Config.Quorum.{weight}
use narwhal_td.Primary.Error.{DagResult}
use narwhal_td.Primary.Header.{Header}
use narwhal_td.Primary.Vote.{Vote}
use narwhal_td.Primary.Certificate
use narwhal_td.Primary.Certificate.{Certificate}
use narwhal_td.Primary.Aggregators.{
  VotesAggregator, CertificatesAggregator, new_votes, new_certificates, append_vote,
  append_certificate,
}

-- What a call reports.
abbrev pub reported : {A : Type 0} → DagResult (Option A) → List A
reported (ok (some a)) = a ∷ []
reported (ok none) = []
reported (err e) = []
reported panic = []

abbrev pub origins : List Certificate → List PublicKey
origins [] = []
origins (x ∷ xs) = Certificate.origin x ∷ origins xs

-- Distinct authorities, all used, that weigh at least `w`.
record Enrolled (c : Committee) (used names : List PublicKey) (w : ℕ) : Type 0 where
  within : (n : PublicKey) → Set.contains n names ≡ true → Set.contains n used ≡ true
  distinct : Distinct names
  bound : w ≤ weight c names

keys-append {ℓ} : {V : Type ℓ} (m l : Map.Map V) → Map.keys (m ++ l) ≡ Map.keys m ++ Map.keys l
keys-append [] l = refl
keys-append ((k, v) ∷ m) l = ap (λ ks. k ∷ ks) (keys-append m l)

origins-append : (xs ys : List Certificate) → origins (xs ++ ys) ≡ origins xs ++ origins ys
origins-append [] ys = refl
origins-append (x ∷ xs) ys = ap (λ ks. Certificate.origin x ∷ ks) (origins-append xs ys)

weight-snoc :
    (c : Committee) (names : List PublicKey) (x : PublicKey)
    → weight c (names ++ x ∷ []) ≡ weight c names + stake c x
unfolding weight
weight-snoc c [] x = omega arith
weight-snoc c (n ∷ names) x = omega (arith, weight-snoc c names x)

snoc-Distinct :
    (names : List PublicKey) (x : PublicKey)
    → Set.contains x names ≡ false
    → Distinct names
    → Distinct (names ++ x ∷ [])
unfolding Set.contains
snoc-Distinct [] x new d = (refl, tt)
snoc-Distinct (n ∷ names) x new d =
    ground (arith, snoc-Distinct names x, contains-append n names (x ∷ []), d.0, d.1, new)

module _ (c : Committee) (used names : List PublicKey) where
  Enrolled-snoc :
      (w : ℕ) (x : PublicKey)
      → Set.contains x used ≡ false
      → Enrolled c used names w
      → Enrolled c (Set.insert x used) (names ++ x ∷ []) (add32 w (stake c x))
  unfolding Set.contains add32
  Enrolled-snoc w x new e = record {
    within = λ n h.
        ground (arith, h, contains-append n names (x ∷ []), contains-insert x n used, e.within n);
    distinct = snoc-Distinct names x (ground (arith, e.within x, new)) e.distinct;
    bound = omega (arith, e.bound, weight-snoc c names x);
  }

  -- The weight is reset.
  Enrolled-reset : (w : ℕ) → Enrolled c used names w → Enrolled c used names 0
  Enrolled-reset w e = record { within = e.within; distinct = e.distinct; bound = omega arith }

Enrolled-nil : (c : Committee) (used : List PublicKey) → Enrolled c used [] 0
unfolding Set.contains
Enrolled-nil c used = record { within = λ n h. cc; distinct = tt; bound = omega arith }

-- The author and the signature are those of one of the votes.
abbrev pub IsFrom : List Vote → PublicKey × Signature → Type 0
IsFrom votes (name, signature) =
    (v : Vote) × IsIn v votes × (v.author ≡ name) × (v.signature ≡ signature)

-- The certificate is of the header, with the signatures of distinct authors of the votes that weigh a
-- quorum.
abbrev pub IsAssembled : Committee → Header → List Vote → Certificate → Type 0
IsAssembled c header votes x =
    (x.header ≡ header)
    × (All (IsFrom votes) x.votes)
    × Distinct (Map.keys x.votes)
    × (quorum_threshold c ≤ weight c (Map.keys x.votes))

-- The digests are those of certificates of distinct origins that weigh a quorum.
abbrev pub AreParentsOf : Primitives → Committee → List Certificate → List Digest → Type 0
AreParentsOf p c certificates digests =
    (xs : List Certificate) × (digests ≡ map (Certificate.digest p) xs)
    × (All (λ x. IsIn x certificates) xs)
    × Distinct (origins xs)
    × (quorum_threshold c ≤ weight c (origins xs))

module _ (c : Committee) (header : Header) (votes : List Vote) where
  pub record Collected (a : VotesAggregator) : Type 0 where
    enrolled : Enrolled c a.used (Map.keys a.votes) a.weight
    from : All (IsFrom votes) a.votes

  pub Collected-start : Collected new_votes
  Collected-start = record { enrolled = Enrolled-nil c []; from = tt }

  pub append_vote-IsAssembled :
      (a : VotesAggregator) (vote : Vote)
      → IsIn vote votes
      → Collected a
      → let (r, a') = append_vote a vote c header in
        Collected a' × All (IsAssembled c header votes) (reported r)
  unfolding append_vote
  append_vote-IsAssembled a vote m k = elim (Bool-cases (Set.contains vote.author a.used)) [
    | inl old ↦ rw old (k, tt)
    | inr new ↦
        let name = vote.author in
        let all = a.votes ++ (name, vote.signature) ∷ [] in
        let w = add32 a.weight (stake c name) in
        let used = Set.insert name a.used in
        let from =
          All-append (IsFrom votes) a.votes ((name, vote.signature) ∷ []) k.from
            ((vote, m, refl, refl), tt) in
        let enrolled : Enrolled c used (Map.keys all) w =
          subst (λ ns. Enrolled c used ns w) (sym (keys-append a.votes _))
            (Enrolled-snoc c a.used (Map.keys a.votes) a.weight name new k.enrolled) in
        rw new (elim (Bool-cases (leb (quorum_threshold c) w)) [
          | inl full ↦ rw full (
            record { enrolled = Enrolled-reset c used (Map.keys all) w enrolled; from = from },
            ((refl, from, enrolled.distinct, ground (arith, full, enrolled.bound)), tt),
          )
          | inr short ↦ rw short (record { enrolled = enrolled; from = from }, tt)
        ])
  ]

module _ (p : Primitives) (c : Committee) (certificates : List Certificate) where
  pub record Gathered (a : CertificatesAggregator) : Type 0 where
    members : List Certificate
    same : a.certificates ≡ map (Certificate.digest p) members
    from : All (λ x. IsIn x certificates) members
    enrolled : Enrolled c a.used (origins members) a.weight

  Gathered-none :
      (used : List PublicKey) → Gathered (record { weight = 0; certificates = []; used = used })
  Gathered-none used = record {
    members = [];
    same = refl;
    from = tt;
    enrolled = Enrolled-nil c used;
  }

  pub Gathered-start : Gathered new_certificates
  Gathered-start = Gathered-none []

  pub append_certificate-AreParentsOf :
      (a : CertificatesAggregator) (x : Certificate)
      → IsIn x certificates
      → Gathered a
      → let (r, a') = append_certificate p a x c in
        Gathered a' × All (AreParentsOf p c certificates) (reported r)
  unfolding append_certificate
  append_certificate-AreParentsOf a x m k =
      let o = Certificate.origin x in
      elim (Bool-cases (Set.contains o a.used)) [
        | inl old ↦ rw old (k, tt)
        | inr new ↦
            let w = add32 a.weight (stake c o) in
            let used = Set.insert o a.used in
            let all = k.members ++ x ∷ [] in
            let same : a.certificates ++ Certificate.digest p x ∷ []
                ≡ map (Certificate.digest p) all =
              ap (λ ds. ds ++ Certificate.digest p x ∷ []) k.same
              ∙ sym (map-append (Certificate.digest p) k.members (x ∷ [])) in
            let from = All-append (λ y. IsIn y certificates) k.members (x ∷ []) k.from (m, tt) in
            let enrolled : Enrolled c used (origins all) w =
              subst (λ ns. Enrolled c used ns w) (sym (origins-append k.members _))
                (Enrolled-snoc c a.used (origins k.members) a.weight o new k.enrolled) in
            rw new (elim (Bool-cases (leb (quorum_threshold c) w)) [
              | inl full ↦ rw full (
                Gathered-none used,
                ((all, same, from, enrolled.distinct, ground (arith, full, enrolled.bound)), tt),
              )
              | inr short ↦
                  rw short
                    (record { members = all; same = same; from = from; enrolled = enrolled }, tt)
            ])
      ]
