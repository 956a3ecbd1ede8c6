-- ===== src/Network.antt =====
-- network/src: the connections between nodes.
pub mod Reliable
pub mod Sender
pub mod Simple
pub mod Receiver
mod Tests
