-- ===== src/Signing.antt =====
-- The signing crate shared by the services (rust-common/src/signing).
pub mod Message
pub mod Signer
mod Tests
