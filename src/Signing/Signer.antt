-- ===== src/Signing/Signer.antt =====
-- The ECDSA signer and its address (rust-common/src/signing/signer.rs, error.rs, evm_address.rs).
pub mod Laws
use zee_k_verifier.Prelude.{
  ℕ, zero, suc, ◌+◌, ◌-◌, ◌%◌, ◌^◌, Bool, true, false, not, List, [], ◌∷◌, ◌++◌, Bytes, Text,
  length, Option, none, some, Result, ok, err, map_err, unwrap_or, ◌>>=◌, drop, codes, text_eq,
  to_ascii_lowercase, with_0x, if◌then◌else◌,
}
use mathlib.Core.Bool.{xor}
use zee_k_verifier.Extern.Hex.{Hex}
use zee_k_verifier.Extern.Crypto.{Crypto}

pub data SigningError : Type 0 where
  invalid_key signing_failed key_file_error hex_decode_error : Text → SigningError

pub data SignatureVFormat : Type 0 where
  raw evm : SignatureVFormat

abbrev evm_recovery_id_offset : ℕ
evm_recovery_id_offset = 27

-- The sum is a `u8`.
unfoldable pub convert_v : SignatureVFormat → ℕ → ℕ
convert_v raw raw_v = raw_v
convert_v evm raw_v = (raw_v + evm_recovery_id_offset) % 256

-- No character outside ASCII has "e", "v" or "m" for its lower case.
unfoldable pub from_str : Text → SignatureVFormat
unfolding to_ascii_lowercase text_eq codes
from_str s = if text_eq (to_ascii_lowercase s) (codes "evm") then evm else raw

module _ (c : Crypto) where
  pub record Signer : Type 0 where
    pub signing_key : c.SigningKey

  -- `Signer::from_bytes`; `TryFrom<&[u8]>` is the same.
  unfoldable pub from_bytes : Bytes → Result SigningError Signer
  from_bytes bytes = do
    key ← map_err invalid_key (c.from_slice bytes)
    ok (record { signing_key = key })

  -- `Signer::from_file`, for a file system that answers a read.
  unfoldable pub from_file : (Text → Result Text Bytes) → Text → Result SigningError Signer
  unfolding from_bytes
  from_file read path = do key_bytes ← map_err key_file_error (read path); from_bytes key_bytes

  -- Low S, and the parity of the recovery id that goes with it.
  unfoldable pub normalize_low : c.Signature × c.RecoveryId → c.Signature × c.RecoveryId
  unfolding xor
  normalize_low (sig, recid) =
      let is_y_odd = xor (c.is_y_odd recid) (c.is_high sig) in
      let sig_low = unwrap_or sig (c.normalize_s sig) in
      (sig_low, c.recid_new is_y_odd (c.is_x_reduced recid))

  -- The signature is brought to the low S of BIP-62.
  unfoldable pub sign_prehash : Signer → Bytes → Result SigningError (c.Signature × c.RecoveryId)
  unfolding normalize_low
  sign_prehash signer hash = do
    signed ← map_err signing_failed (c.sign_prehash_recoverable signer.signing_key hash)
    ok (normalize_low signed)

  unfoldable pub sign_prehash_to_hex_with_format :
      Hex → Signer → Bytes → SignatureVFormat → Result SigningError Text
  unfolding sign_prehash
  sign_prehash_to_hex_with_format h signer hash v_format = do
    signed ← sign_prehash signer hash
    let recid_byte = convert_v v_format (c.to_byte signed.1)
    ok (h.encode (c.sig_to_bytes signed.0 ++ recid_byte ∷ []))

  unfoldable pub sign_prehash_to_hex : Hex → Signer → Bytes → Result SigningError Text
  unfolding sign_prehash_to_hex_with_format
  sign_prehash_to_hex h signer hash = sign_prehash_to_hex_with_format h signer hash raw

  -- `EvmAddress::from(&signer)`: the last 20 bytes of the hash of the point's coordinates.
  unfoldable pub evm_address : Hex → Signer → Text
  unfolding with_0x
  evm_address h signer =
      let public_key_bytes = c.uncompressed (c.verifying_key signer.signing_key) in
      let key_hash = c.keccak256 (drop 1 public_key_bytes) in with_0x (h.encode (drop 12 key_hash))
