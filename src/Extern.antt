-- ===== src/Extern.antt =====
-- What the code calls and this repository does not hold: the crates `hex`, `sha3`, `k256`, `tfhe`,
-- `bincode`, `cofhe-keys`, the client of Google Cloud Storage, and the disk.
-- Each is a record of the operations used, and beside it a record of documented laws.
pub mod Hex
pub mod Crypto
pub mod Tfhe
pub mod Codec
pub mod Otlp
pub mod Bucket
pub mod TfheKeys
pub mod PublicKeys
pub mod CofheKeys
pub mod FileSystem
pub mod Download
