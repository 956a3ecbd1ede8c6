-- ===== src/Primary/Core.antt =====
-- primary/src/core.rs: the task that turns headers, votes and certificates into the DAG.
-- `State` has the task's fields and the form of its methods, `Process` and `Run` the methods.
pub mod State
pub mod Sanitize
pub mod Process
pub mod Keeps
pub mod Leads
pub mod Sent
pub mod Voting
pub mod Delivery
pub mod Justified
pub mod Fixed
pub mod Run
mod Tests
