-- ===== src/Primary/Error.antt =====
-- primary/src/error.rs. The store's and bincode's own errors carry no detail here.
use narwhal_td.Base.Results.{Result}
use narwhal_td.Base.{ℕ}
use narwhal_td.Crypto.{Digest, PublicKey}

pub data DagError : Type 0 where
  invalid_signature store_error serialization_error invalid_header_id : DagError
  malformed_header : Digest → DagError
  unknown_authority authority_reuse : PublicKey → DagError
  unexpected_vote : Digest → DagError
  certificate_requires_quorum : DagError
  header_requires_quorum : Digest → DagError
  too_old : Digest → ℕ → DagError

abbrev pub DagResult : Type 0 → Type 0
DagResult A = Result DagError A
