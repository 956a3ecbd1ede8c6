-- ===== src/Primary/Certificate/Genesis.antt =====
-- The rounds of the genesis certificates.
use narwhal_td.Base.{◌≡◌, refl, [], ◌∷◌, All}
use narwhal_td.Base.Map.{Map}
use narwhal_td.Config.{Committee, Authority}
use narwhal_td.Primary.Certificate
use narwhal_td.Primary.Certificate.{Certificate, genesis_of, genesis}

genesis_of-rounds : (m : Map Authority) → All (λ x. Certificate.round x ≡ 0) (genesis_of m)
unfolding genesis_of
genesis_of-rounds [] = tt
genesis_of-rounds ((name, a) ∷ m) = (refl, genesis_of-rounds m)

pub genesis-rounds : (c : Committee) → All (λ x. Certificate.round x ≡ 0) (genesis c)
unfolding genesis
genesis-rounds c = genesis_of-rounds c.authorities
