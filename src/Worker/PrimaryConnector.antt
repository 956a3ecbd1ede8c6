-- ===== src/Worker/PrimaryConnector.antt =====
-- worker/src/primary_connector.rs: sends the digests of batches to the primary.
use narwhal_td.Base.{ℕ, Bool, List, [], ◌∷◌}
use narwhal_td.Config.{SocketAddr}
use narwhal_td.Network.Simple.{SimpleSender, send}
use narwhal_td.Worker.Platform.{Bytes}

-- `run`, over the digests received, each with the connections that take messages at that time.
unfoldable pub run : SocketAddr → List ((ℕ → Bool) × Bytes) → SimpleSender → SimpleSender
run primary_address [] network = network
run primary_address ((is_ok, digest) ∷ digests) network =
    run primary_address digests (send is_ok primary_address digest network)
