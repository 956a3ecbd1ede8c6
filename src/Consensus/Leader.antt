-- ===== src/Consensus/Leader.antt =====
-- `leader` of consensus/src/lib.rs: the certificate of the leader of a round.
use narwhal_td.Base.{ℕ, zero, suc, ◌%◌, Option, none, some, List, [], ◌∷◌}
use narwhal_td.Base.Map
use narwhal_td.Base.Map.{Map}
use narwhal_td.Base.Options.{◌>>=◌}
use narwhal_td.Base.Sort.{sort_by_key}
use narwhal_td.Crypto.{Digest, PublicKey}
use narwhal_td.Config.{Committee, size}
use narwhal_td.Primary.Header.{Round}
use narwhal_td.Primary.Certificate.{Certificate}
use narwhal_td.Consensus.State.{Authorities, Dag}

abbrev get_elem? : List PublicKey → ℕ → Option PublicKey
get_elem? [] i = none
get_elem? (x ∷ xs) zero = some x
get_elem? (x ∷ xs) (suc i) = get_elem? xs i

-- The name of the leader, by round-robin; an empty committee panics.
unfoldable pub elect : Committee → Round → Option PublicKey
elect c coin = get_elem? (sort_by_key (λ k. k) (Map.keys c.authorities)) (coin % size c)

abbrev pub get_leader : PublicKey → Option Authorities → Option (Digest × Certificate)
get_leader name none = none
get_leader name (some authorities) = Map.lookup name authorities

-- The outer `none` is a panic, the inner one a leader with no certificate in the DAG.
unfoldable pub leader : Committee → Round → Dag → Option (Option (Digest × Certificate))
leader c round dag = do name ← elect c round; some (get_leader name (Map.lookup round dag))
