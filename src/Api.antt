-- ===== src/Api.antt =====
-- The HTTP api (zk-verifier/src/api/mod.rs).
pub mod Address
pub mod Hash
pub mod StoreCts
pub mod Persist
pub mod Batch
pub mod Gate
