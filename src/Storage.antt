-- ===== src/Storage.antt =====
-- Object storage (zk-verifier/src/storage).
pub mod Errors
pub mod Retry
pub mod Paths
pub mod Objects
pub mod Gcs
pub mod Manager
