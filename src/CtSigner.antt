-- ===== src/CtSigner.antt =====
-- Ciphertext commitments and the batch signature (zk-verifier/src/signer/ecdsa.rs).
pub mod Messages
pub mod Binding
mod Tests
use mathlib.Core.List.{foldl}
use zee_k_verifier.Prelude.{
  ℕ, List, [], ◌∷◌, ◌++◌, map, take, drop, replicate, length, ◌+◌, Bytes, be_bytes, Result, err,
  codes,
}
use zee_k_verifier.Extern.Crypto.{Crypto}
use zee_k_verifier.Extern.Tfhe.{Tfhe, FheTypes}
use zee_k_verifier.Signing.Message.{
  SigningMessageBuilder, SigningEncode, slice, array, u8, new, ◌add◌, build_hash,
}
use zee_k_verifier.Signing.Signer.{SigningError, signing_failed, Signer, sign_prehash}

-- `dst[at..].copy_from_slice(src)`, for a source that fills the rest of the destination.
unfoldable pub copy_at : ℕ → Bytes → Bytes → Bytes
copy_at at src dst = take at dst ++ src

-- The chain id as a 32-byte big-endian integer.
unfoldable pub chain_id_bytes : ℕ → Bytes
unfolding copy_at be_bytes
chain_id_bytes chain_id = copy_at 28 (be_bytes 4 chain_id) (replicate 32 0)

-- The message that `ct_message_hash` builds; a type stands in it as its `u8` discriminant.
unfoldable pub ct_message : Bytes → ℕ → ℕ → Bytes → ℕ → Bytes → SigningMessageBuilder
unfolding chain_id_bytes ◌add◌
ct_message ct_hash ct_type sz acc_addr chain_id contract_addr =
    new
    add slice ct_hash
    add u8 ct_type
    add u8 sz
    add slice acc_addr
    add array (chain_id_bytes chain_id)
    add slice contract_addr

unfoldable pub ct_message_hash : Crypto → Tfhe → Bytes → FheTypes → ℕ → Bytes → ℕ → Bytes → Bytes
unfolding ct_message build_hash
ct_message_hash c t ct_hash ct_type sz acc_addr chain_id contract_addr =
    build_hash c (ct_message ct_hash (t.discriminant ct_type) sz acc_addr chain_id contract_addr)

unfoldable pub batch_message : List Bytes → SigningMessageBuilder
unfolding ◌add◌
batch_message hashes = foldl ◌add◌ new (map array hashes)

-- An empty batch is refused: its digest would be one constant.
unfoldable pub sign_batch :
    (c : Crypto) → Signer c → List Bytes → Result SigningError (c.Signature × c.RecoveryId)
unfolding batch_message build_hash sign_prehash
sign_batch c signer [] = err (signing_failed (codes "cannot sign an empty batch of ciphertexts"))
sign_batch c signer (hash ∷ hashes) =
    sign_prehash c signer (build_hash c (batch_message (hash ∷ hashes)))
