-- ===== src/Samples.antt =====
-- Concrete crates that meet the laws, for the tests of the other modules.
pub mod HexCrate
pub mod CryptoCrate
pub mod Machine
pub mod TfheCrate
pub mod Bincode
