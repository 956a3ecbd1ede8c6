-- ===== src/Consensus/Linked.antt =====
-- `linked` of consensus/src/lib.rs: is there a path from one leader to an earlier one?
pub mod Chain
use narwhal_td.Base.{
  ℕ, zero, suc, ◌+◌, ◌-◌, Bool, Option, none, some, List, [], ◌∷◌, any, if◌then◌else◌,
}
use narwhal_td.Base.Map
use narwhal_td.Base.Set
use narwhal_td.Base.Options.{◌>>=◌}
use narwhal_td.Crypto.{Digest}
use narwhal_td.Primary.Header.{Round}
use narwhal_td.Primary.Certificate
use narwhal_td.Primary.Certificate.{Certificate}
use narwhal_td.Consensus.State.{Authorities, Dag}

-- Whether one of the certificates has the digest among its parents.
abbrev pub is_parent : Digest → List Certificate → Bool
is_parent digest parents = any (λ x. Set.contains digest x.header.parents) parents

-- The certificates of a round that are parents of those given.
unfoldable pub parents_in : Authorities → List Certificate → List Certificate
parents_in [] parents = []
parents_in ((name, (digest, certificate)) ∷ rest) parents =
    let tail = parents_in rest parents in
    if is_parent digest parents then certificate ∷ tail else tail

-- The loop over the rounds `lo + n - 1` down to `lo`; a round that is not in the DAG panics.
unfoldable pub walk : Dag → Round → ℕ → List Certificate → Option (List Certificate)
walk dag lo zero parents = some parents
walk dag lo (suc n) parents = do
  authorities ← Map.lookup (lo + n) dag
  walk dag lo n (parents_in authorities parents)

unfoldable pub linked : Certificate → Certificate → Dag → Option Bool
linked leader prev_leader dag = do
  parents ←
      walk dag (Certificate.round prev_leader)
        (Certificate.round leader - Certificate.round prev_leader) (leader ∷ [])
  some (any (λ x. Certificate.eq x prev_leader) parents)
