-- ===== src/Primary/Core/Sanitize.antt =====
-- The `sanitize_…` methods of primary/src/core.rs: what is checked of a message from another
-- primary before it is processed. They change no field.
use narwhal_td.Base.{◌&&◌, leb, ◌==◌}
use narwhal_td.Base.Results.{◌>>◌, ensure}
use narwhal_td.Primary.Error.{DagResult, too_old, unexpected_vote}
use narwhal_td.Primary.Header
use narwhal_td.Primary.Header.{Header}
use narwhal_td.Primary.Vote
use narwhal_td.Primary.Vote.{Vote}
use narwhal_td.Primary.Certificate
use narwhal_td.Primary.Certificate.{Certificate}
use narwhal_td.Primary.Platform.{Platform}
use narwhal_td.Primary.Core.State.{Core}

unfoldable pub sanitize_header : Platform → Core → Header → DagResult Unit
sanitize_header p s header = do
  ensure (leb s.gc_round header.round) (too_old header.id header.round)
  Header.verify p.primitives s.committee header

unfoldable pub sanitize_vote : Platform → Core → Vote → DagResult Unit
sanitize_vote p s vote = do
  ensure (leb s.current_header.round vote.round)
      (too_old (Vote.digest p.primitives vote) vote.round)
  ensure
      (vote.id == s.current_header.id
        && vote.origin == s.current_header.author
        && vote.round == s.current_header.round)
      (unexpected_vote vote.id)
  Vote.verify p.primitives s.committee vote

unfoldable pub sanitize_certificate : Platform → Core → Certificate → DagResult Unit
sanitize_certificate p s c = do
  ensure (leb s.gc_round (Certificate.round c))
      (too_old (Certificate.digest p.primitives c) (Certificate.round c))
  Certificate.verify p.primitives s.committee c
