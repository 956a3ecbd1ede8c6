-- ===== src/Consensus.antt =====
-- consensus/src/lib.rs: Tusk, which orders the DAG of certificates.
pub mod State
pub mod Leader
pub mod Linked
pub mod Order
pub mod Run
mod Tests
