-- ===== src/Audit.antt =====
-- The stored ciphertext checker, a program of its own (zk-verifier/scripts/verify_stored_ct.rs). It
-- inlines the service's stored types, object paths, proof metadata and hash adjustment, line for
-- line: for those the definitions of the service stand. The children model what is its own.
pub mod Layouts
pub mod Fetch
pub mod Proof
pub mod Run
pub mod Main
pub mod Search
pub mod Hashes
pub mod Proves
pub mod Laws
mod Sample
mod Tests
