-- ===== src/Worker.antt =====
-- worker/src: batches of encrypted transactions, from the clients to the primary.
pub mod Platform
pub mod BatchMaker
pub mod QuorumWaiter
pub mod Processor
pub mod Synchronizer
pub mod Helper
pub mod PrimaryConnector
pub mod Handlers
mod Tests
