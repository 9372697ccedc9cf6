-- ===== src/Extern/TfheKeys.antt =====
-- The crate `tfhe` on key files: `safe_deserialize(bytes, limit)` at the types of the public
-- artifacts, and the expansion of a compressed server key.
use zee_k_verifier.Prelude.{ℕ, Result, Bytes, Text}
use zee_k_verifier.Extern.Tfhe.{Tfhe}

pub record TfheKeys (t : Tfhe) : Type 1 where
  pub CompressedServerKey : Type 0
  pub crs_from : Bytes → ℕ → Result Text t.CompactPkeCrs
  pub public_key_from : Bytes → ℕ → Result Text t.CompactPublicKey
  pub compressed_server_key_from : Bytes → ℕ → Result Text CompressedServerKey
  pub server_key_from : Bytes → ℕ → Result Text t.ServerKey
  pub decompress : CompressedServerKey → t.ServerKey
