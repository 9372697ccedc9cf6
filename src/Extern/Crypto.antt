-- ===== src/Extern/Crypto.antt =====
-- The crates `sha3` (Keccak-256) and `k256` (ECDSA over secp256k1).
use zee_k_verifier.Prelude.{
  ℕ, ◌+◌, ◌*◌, ◌≡◌, Bool, true, false, not, Option, none, some, Result, ok, Bytes, IsBytes, Text,
  length, if◌then◌else◌,
}

pub record Crypto : Type 1 where
  pub keccak256 : Bytes → Bytes
  pub SigningKey : Type 0
  pub VerifyingKey : Type 0
  pub Signature : Type 0
  pub RecoveryId : Type 0
  -- `SigningKey::from_slice`, `to_bytes`, `verifying_key`
  pub from_slice : Bytes → Result Text SigningKey
  pub key_to_bytes : SigningKey → Bytes
  pub verifying_key : SigningKey → VerifyingKey
  -- `to_encoded_point(false).to_bytes()`: the byte 4 and the two coordinates
  pub uncompressed : VerifyingKey → Bytes
  pub sign_prehash_recoverable : SigningKey → Bytes → Result Text (Signature × RecoveryId)
  -- `sig.s().is_high()`, `sig.normalize_s()`, `sig.to_bytes()`
  pub is_high : Signature → Bool
  pub normalize_s : Signature → Option Signature
  pub sig_to_bytes : Signature → Bytes
  -- `RecoveryId::new`, its two readers, `to_byte`
  pub recid_new : Bool → Bool → RecoveryId
  pub is_y_odd : RecoveryId → Bool
  pub is_x_reduced : RecoveryId → Bool
  pub to_byte : RecoveryId → ℕ
  -- `VerifyingKey::recover_from_prehash`, which the code never calls: its consumers do.
  pub recover : Bytes → Signature → RecoveryId → Option VerifyingKey

abbrev bit : Bool → ℕ
bit b = if b then 1 else 0

pub record IsCrypto (c : Crypto) : Type 0 where
  pub length-keccak256 : (b : Bytes) → length (c.keccak256 b) ≡ 32
  pub keccak256-IsBytes : (b : Bytes) → IsBytes (c.keccak256 b)
  pub length-sig_to_bytes : (s : c.Signature) → length (c.sig_to_bytes s) ≡ 64
  pub to_byte-recid_new : (y x : Bool) → c.to_byte (c.recid_new y x) ≡ 2 * bit x + bit y
  pub recid_new_lem : (r : c.RecoveryId) → c.recid_new (c.is_y_odd r) (c.is_x_reduced r) ≡ r
  -- `normalize_s` is `None` exactly for a low S, and its result is low.
  pub normalize_s_low : (s : c.Signature) → c.is_high s ≡ false → c.normalize_s s ≡ none
  pub normalize_s_high :
      (s : c.Signature)
      → c.is_high s ≡ true
      → (t : c.Signature) × (c.normalize_s s ≡ some t) × (c.is_high t ≡ false)
  -- A key's bytes read back as it.
  pub from_slice-key_to_bytes : (k : c.SigningKey) → c.from_slice (c.key_to_bytes k) ≡ ok k
  -- What the signing key signs recovers to its verifying key.
  pub recover_signed :
      (k : c.SigningKey) (h : Bytes) (s : c.Signature) (r : c.RecoveryId)
      → c.sign_prehash_recoverable k h ≡ ok (s, r)
      → c.recover h s r ≡ some (c.verifying_key k)
  -- Negating S reflects the point: the parity of its y coordinate flips and nothing else.
  pub recover_normalized :
      (h : Bytes) (s t : c.Signature) (y x : Bool)
      → c.normalize_s s ≡ some t
      → c.recover h t (c.recid_new (not y) x) ≡ c.recover h s (c.recid_new y x)
