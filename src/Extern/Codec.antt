-- ===== src/Extern/Codec.antt =====
-- What object storage takes from outside: bincode for one type of stored object, the printing of
-- a JSON array, blake3, and the provider behind `Arc<dyn StorageProvider>`.
use zee_k_verifier.Prelude.{Bytes, Text, Result, ok, ◌≡◌}

-- `bincode::serialize` and `bincode::deserialize`; an error is its message.
pub record Codec (A : Type 0) : Type 0 where
  pub serialize : A → Result Text Bytes
  pub deserialize : Bytes → Result Text A

pub record IsCodec {A : Type 0} (c : Codec A) : Type 0 where
  pub deserialize_serialize : (a : A) (b : Bytes) → c.serialize a ≡ ok b → c.deserialize b ≡ ok a
