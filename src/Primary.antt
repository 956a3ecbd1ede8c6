-- ===== src/Primary.antt =====
-- primary/src: the messages of the DAG, the tasks that build it, and their interplay.
pub mod Error
pub mod Header
pub mod Vote
pub mod Certificate
pub mod Aggregators
pub mod Platform
pub mod Synchronizer
pub mod Proposer
pub mod HeaderWaiter
pub mod Tasks
pub mod Core
mod Tests
