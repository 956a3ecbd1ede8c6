-- ===== src/Primary/Tasks.antt =====
-- The tasks of the primary that keep little or no state: garbage_collector.rs, helper.rs,
-- payload_receiver.rs and the two message handlers of primary.rs.
pub mod GarbageCollector
pub mod CertificateWaiter
pub mod Helper
pub mod PayloadReceiver
pub mod Handlers
mod Tests
