-- ===== src/Primary/Core/Tests.antt =====
-- The theorems on what the core and its synchronizer ask of the parents of headers and certificates.
use narwhal_td.Base.{◌^◌, ◌≤◌, ◌<◌, ◌≡◌, ◌↔◌, List, [], ◌∷◌, All, arith}
use narwhal_td.Base.Map
use narwhal_td.Base.Results.{ok}
use narwhal_td.Config.{stake, quorum_threshold}
use narwhal_td.Primary.Header.{Header}
use narwhal_td.Primary.Certificate.{Certificate}
use narwhal_td.Primary.Core.Process.{check_parents}
use narwhal_td.Primary.Core.Process.Parents.{IsParent, parent_stake, check_parents_iff}
use narwhal_td.Samples.{committee, header, certificate}

abbrev proposed : Header
proposed = header 2 3 (21 ∷ 22 ∷ 23 ∷ [])

abbrev parents : List Certificate
parents = certificate 1 2 [] [] ∷ certificate 3 2 [] [] ∷ certificate 4 2 [] [] ∷ []

light : parent_stake committee parents < 2 ^ 32
unfolding parent_stake stake Map.lookup
light = omega arith

check_parents_iff_example : (check_parents committee proposed parents ≡ ok tt) ↔ (
    All (IsParent proposed) parents × (quorum_threshold committee ≤ parent_stake committee parents))
check_parents_iff_example = check_parents_iff committee proposed parents light
