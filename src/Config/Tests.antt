-- ===== src/Config/Tests.antt =====
-- The theorems on the committee, at a committee of four.
use narwhal_td.Base.{◌+◌, ◌≤◌, ◌≡◌, refl, [], ◌∷◌, arith, add32, mul32}
use narwhal_td.Base.Map
use narwhal_td.Base.Set
use narwhal_td.Base.Set.{Distinct}
use narwhal_td.Config.{quorum_threshold, validity_threshold, stake, sum_stakes}
use narwhal_td.Config.Thresholds.{FitsU32, total, total_of, thresholds_of_faults}
use narwhal_td.Config.Quorum.{weight, common, quorum_intersection}
use narwhal_td.Samples.{committee}

pub keyed : Distinct (Map.keys committee.authorities)
unfolding Set.contains
keyed = (refl, (refl, (refl, (refl, tt))))

pub fits : FitsU32 committee
unfolding total_of
fits = omega arith

four : total committee ≡ 4
unfolding total_of
four = refl

thresholds_of_faults_example :
    (quorum_threshold committee + 1 ≡ total committee) × (validity_threshold committee ≡ 1 + 1)
thresholds_of_faults_example = thresholds_of_faults committee 1 0 fits four (omega arith)

quorum : quorum_threshold committee ≡ 3
unfolding quorum_threshold add32 mul32 sum_stakes
quorum = refl

three_weigh_three :
    (weight committee (1 ∷ 2 ∷ 3 ∷ []) ≡ 3) × (weight committee (2 ∷ 3 ∷ 4 ∷ []) ≡ 3)
unfolding weight stake Map.lookup
three_weigh_three = (refl, refl)

quorum_intersection_example :
    validity_threshold committee ≤ weight committee (common (1 ∷ 2 ∷ 3 ∷ []) (2 ∷ 3 ∷ 4 ∷ []))
unfolding Set.contains
quorum_intersection_example =
    quorum_intersection committee keyed fits (1 ∷ 2 ∷ 3 ∷ []) (2 ∷ 3 ∷ 4 ∷ [])
      (refl, (refl, (refl, tt))) (refl, (refl, (refl, tt)))
      (omega (arith, quorum, three_weigh_three.0)) (omega (arith, quorum, three_weigh_three.1))
