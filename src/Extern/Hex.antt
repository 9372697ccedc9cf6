-- ===== src/Extern/Hex.antt =====
-- The crate `hex`: `hex::encode` and `hex::decode`, whose error is kept as its printed text.
use zee_k_verifier.Prelude.{◌*◌, ◌≡◌, Result, ok, Bytes, Text, IsBytes, length, to_ascii_lowercase}

pub record Hex : Type 0 where
  pub encode : Bytes → Text
  pub decode : Text → Result Text Bytes

-- Two digits for each byte, lower case when written, any case when read.
pub record IsHex (h : Hex) : Type 0 where
  pub decode-encode : (b : Bytes) → IsBytes b → h.decode (h.encode b) ≡ ok b
  pub decode-IsBytes : (s : Text) (b : Bytes) → h.decode s ≡ ok b → IsBytes b
  pub encode-decode : (s : Text) (b : Bytes) → h.decode s ≡ ok b → h.encode b ≡ to_ascii_lowercase s
  pub length-encode : (b : Bytes) → length (h.encode b) ≡ 2 * length b
