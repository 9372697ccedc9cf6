-- ===== src/Extern/PublicKeys.antt =====
-- The crate `k256` on published keys: `VerifyingKey::from_sec1_bytes`, the compressed bytes of
-- `to_encoded_point(true)`, and equality of points.
use zee_k_verifier.Prelude.{Bool, true, Result, ok, Bytes, Text, ◌≡◌, ◌↔◌}
use zee_k_verifier.Extern.Crypto.{Crypto}

pub record PublicKeys (c : Crypto) : Type 0 where
  pub from_sec1_bytes : Bytes → Result Text c.VerifyingKey
  pub to_compressed : c.VerifyingKey → Bytes
  pub same_point : c.VerifyingKey → c.VerifyingKey → Bool

pub record IsPublicKeys {c : Crypto} (p : PublicKeys c) : Type 0 where
  pub same_point_iff : (a b : c.VerifyingKey) → (p.same_point a b ≡ true) ↔ (a ≡ b)
  pub from_sec1_bytes-to_compressed :
      (v : c.VerifyingKey) → p.from_sec1_bytes (p.to_compressed v) ≡ ok v
