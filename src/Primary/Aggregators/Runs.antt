-- ===== src/Primary/Aggregators/Runs.antt =====
-- The aggregators of primary/src/aggregators.rs over all the votes and certificates that reach them.
use narwhal_td.Base.{List, [], ◌∷◌, ◌++◌, All, All-append, All-weaken, inl, inr, refl}
use narwhal_td.Base.Members.{IsIn}
use narwhal_td.Crypto.{Digest, Primitives}
use narwhal_td.Config.{Committee}
use narwhal_td.Primary.Header.{Header}
use narwhal_td.Primary.Vote.{Vote}
use narwhal_td.Primary.Certificate.{Certificate}
use narwhal_td.Primary.Aggregators.{
  VotesAggregator, CertificatesAggregator, append_vote, append_certificate,
}
use narwhal_td.Primary.Aggregators.Content.{
  reported, IsAssembled, AreParentsOf, Collected, append_vote-IsAssembled, Gathered,
  append_certificate-AreParentsOf,
}

-- The certificates that a sequence of votes for one header is assembled into, errors skipped.
unfoldable pub run_votes : Committee → Header → VotesAggregator → List Vote → List Certificate
run_votes c header a [] = []
run_votes c header a (vote ∷ votes) =
    let (result, a') = append_vote a vote c header in reported result ++ run_votes c header a' votes

-- The quorums of parents that a sequence of certificates is assembled into.
unfoldable pub run_certificates :
    Primitives → Committee → CertificatesAggregator → List Certificate → List (List Digest)
run_certificates p c a [] = []
run_certificates p c a (certificate ∷ certificates) =
    let (result, a') = append_certificate p a certificate c in
    reported result ++ run_certificates p c a' certificates

pub All-self : {A : Type 0} (xs : List A) → All (λ x. IsIn x xs) xs
All-self [] = tt
All-self (x ∷ xs) =
    (inl refl, All-weaken (λ y. IsIn y xs) (λ y. IsIn y (x ∷ xs)) xs (λ y m. inr m) (All-self xs))

pub run_votes-IsAssembled :
    (c : Committee) (header : Header) (all votes : List Vote) (a : VotesAggregator)
    → All (λ v. IsIn v all) votes
    → Collected c header all a
    → All (IsAssembled c header all) (run_votes c header a votes)
unfolding run_votes
run_votes-IsAssembled c header all [] a m k = tt
run_votes-IsAssembled c header all (vote ∷ votes) a m k =
    let (r, a') = append_vote a vote c header in
    let (k', assembled) = append_vote-IsAssembled c header all a vote m.0 k in
    All-append (IsAssembled c header all) (reported r) (run_votes c header a' votes) assembled
      (run_votes-IsAssembled c header all votes a' m.1 k')

pub run_certificates-AreParentsOf :
    (p : Primitives) (c : Committee) (all xs : List Certificate) (a : CertificatesAggregator)
    → All (λ x. IsIn x all) xs
    → Gathered p c all a
    → All (AreParentsOf p c all) (run_certificates p c a xs)
unfolding run_certificates
run_certificates-AreParentsOf p c all [] a m k = tt
run_certificates-AreParentsOf p c all (x ∷ xs) a m k =
    let (r, a') = append_certificate p a x c in
    let (k', quorum) = append_certificate-AreParentsOf p c all a x m.0 k in
    All-append (AreParentsOf p c all) (reported r) (run_certificates p c a' xs) quorum
      (run_certificates-AreParentsOf p c all xs a' m.1 k')
