-- ===== src/Node.antt =====
-- node/src: the executables.
pub mod Client
