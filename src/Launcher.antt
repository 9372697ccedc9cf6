-- ===== src/Launcher.antt =====
-- The TDX launcher (tdx-signer/src): it reconstructs the signing key from the partners' shares,
-- fetches and checks the public artifacts, and hands both to the server. The clients of the crate
-- `cofhe-keys`, the attestation socket and the compiled-in files are parameters.
pub mod Attestation
pub mod Source
pub mod Boot
pub mod Accesses
pub mod Resolved
pub mod Material
pub mod Laws
mod Tests
