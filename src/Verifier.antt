-- ===== src/Verifier.antt =====
-- The verifier (zk-verifier/src/verifier/mod.rs).
pub mod Errors
pub mod Expander
pub mod Metadata
pub mod Expansion
pub mod Attests
pub mod Binding
mod Tests
use zee_k_verifier.Prelude.{
  ℕ, zero, suc, ◌+◌, ◌^◌, List, [], ◌∷◌, ◌++◌, map, length, Bytes, Text, Option, none, some, Result,
  ok, err, map_err, ok_or, ◌>>=◌, codes, decimal, without_0x, ◌==◌, if◌then◌else◌,
}
use zee_k_verifier.Extern.Hex.{Hex}
use zee_k_verifier.Extern.Crypto.{Crypto}
use zee_k_verifier.Extern.Tfhe.{Tfhe, FheTypes}
use zee_k_verifier.Signing.Signer.{Signer, evm_address}
use zee_k_verifier.CtSigner.{chain_id_bytes, ct_message_hash, sign_batch}
use zee_k_verifier.Verifier.Errors.{
  VerifierError, hex_error, invalid_input, proof_verification_error, signing,
  contract_length_message, proof_message, expand_message, missing_message,
}
use zee_k_verifier.Verifier.Expander.{serialize_index}

-- The bytes that the proof is bound to.
unfoldable pub reconstruct_metadata : Bytes → ℕ → ℕ → Bytes → Bytes
unfolding chain_id_bytes
reconstruct_metadata account_addr security_zone chain_id contract_addr =
    ((([] ++ security_zone ∷ []) ++ account_addr) ++ chain_id_bytes chain_id) ++ contract_addr

pub record VerifiedCt : Type 0 where
  pub ct_bytes : Bytes
  pub ct_type : FheTypes
  pub ct_hash : Bytes
  pub message_hash : Bytes

-- `for i in 0..expander.len()`: the rounds left, the index, what has been pushed.
unfoldable pub expand_from : {E A : Type 0} → (ℕ → Result E A) → ℕ → ℕ → List A → Result E (List A)
expand_from round zero i pushed = ok pushed
expand_from round (suc left) i pushed = do
  ct ← round i
  expand_from round left (i + 1) (pushed ++ ct ∷ [])

module _ (h : Hex) (c : Crypto) (t : Tfhe) where
  pub record VerifiedBatch : Type 0 where
    pub cts : List VerifiedCt
    pub signature : c.Signature
    pub recid : c.RecoveryId

  pub record Verifier : Type 0 where
    pub pk : t.CompactPublicKey
    pub crs : t.CompactPkeCrs
    pub signer : Signer c

  -- One round of the loop over the expanded list.
  unfoldable pub verified_ct :
      t.Expander → Bytes → ℕ → ℕ → Bytes → ℕ → Result VerifierError VerifiedCt
  unfolding ct_message_hash
  verified_ct expander account_bytes security_zone chain_id contract_bytes i = do
    found ← map_err (λ e. invalid_input (expand_message i e)) (serialize_index t expander i)
    item ← ok_or (invalid_input (missing_message i)) found
    let ct_hash = c.keccak256 item.1
    ok (record {
      ct_bytes = item.1;
      ct_type = item.0;
      ct_hash = ct_hash;
      message_hash =
          ct_message_hash c t ct_hash item.0 security_zone account_bytes chain_id contract_bytes;
    })

  unfoldable pub verify_and_expand :
      Verifier
      → t.ProvenCompactCiphertextList
      → Text
      → ℕ
      → ℕ
      → Text
      → Result VerifierError (List VerifiedCt)
  unfolding expand_from
  verify_and_expand v proven_cts account_addr security_zone chain_id contract_addr = do
    account_bytes ← map_err hex_error (h.decode (without_0x account_addr))
    contract_bytes ← map_err hex_error (h.decode (without_0x contract_addr))
    let metadata = reconstruct_metadata account_bytes security_zone chain_id contract_bytes
    if length contract_bytes == 20
        then (do
          expander ←
              map_err (λ e. proof_verification_error (proof_message e))
                (t.verify_and_expand proven_cts v.crs v.pk metadata)
          expand_from (verified_ct expander account_bytes security_zone chain_id contract_bytes)
              (t.len expander) 0 [])
        else err (invalid_input (contract_length_message (length contract_bytes)))

  unfoldable pub verify_and_sign_batch :
      Verifier
      → t.ProvenCompactCiphertextList
      → Text
      → ℕ
      → ℕ
      → Text
      → Result VerifierError VerifiedBatch
  verify_and_sign_batch v proven_cts account_addr security_zone chain_id contract_addr = do
    cts ← verify_and_expand v proven_cts account_addr security_zone chain_id contract_addr
    signed ←
        map_err signing (sign_batch c v.signer (map (λ (ct : VerifiedCt). ct.message_hash) cts))
    ok (record { cts = cts; signature = signed.0; recid = signed.1 })

  pub get_signer_evm_address : Verifier → Text
  unfolding evm_address
  get_signer_evm_address v = evm_address c h v.signer
