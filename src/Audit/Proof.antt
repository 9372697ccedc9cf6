-- ===== src/Audit/Proof.antt =====
-- Verifying a stored proof and hashing what it proves. The checker writes ciphertexts by plain
-- bincode, where the service writes them by `safe_serialize`.
use zee_k_verifier.Prelude.{
  ℕ, List, [], ◌++◌, length, Option, none, some, Result, ok, err, map_err, ok_or, ◌>>=◌, Bytes,
  Text, codes, decimal, without_0x, ◌==◌, if◌then◌else◌,
}
use zee_k_verifier.Extern.Hex.{Hex}
use zee_k_verifier.Extern.Crypto.{Crypto}
use zee_k_verifier.Extern.Tfhe.{Tfhe, FheTypes, other}
use zee_k_verifier.Verifier.{reconstruct_metadata, expand_from}
use zee_k_verifier.Verifier.Expander.{with_type}

-- bincode at the types of the `tfhe` crate.
pub record Bincode (t : Tfhe) : Type 0 where
  pub serialize : t.CompressedCiphertext → Result Text Bytes
  pub deserialize : Bytes → Result Text t.ProvenCompactCiphertextList

pub record VerifiedCt : Type 0 where
  pub ct_hash : Bytes

module _ (t : Tfhe) (n : Bincode t) where
  written : Option t.Ciphertext → Result Text (Option Bytes)
  written none = ok none
  written (some ct) = do buf ← n.serialize (t.compress ct); ok (some buf)

  -- `SerializeFromExpander::serialize` at the type for a kind.
  serialize : FheTypes → t.Expander → ℕ → Result Text (Option Bytes)
  unfolding written
  serialize ct_type expander index = do found ← t.get ct_type expander index; written found

  serialize_kind : FheTypes → t.Expander → ℕ → Result Text (Option Bytes)
  unfolding serialize codes
  serialize_kind (other k) expander index =
      err (codes "Unsupported FHE type: " ++ t.debug (other k))
  serialize_kind ct_type expander index = serialize ct_type expander index

  serialize_index_at : Option FheTypes → t.Expander → ℕ → Result Text (Option (FheTypes × Bytes))
  unfolding serialize_kind
  serialize_index_at none expander index = ok none
  serialize_index_at (some ct_type) expander index = do
    buf ← serialize_kind ct_type expander index
    ok (with_type ct_type buf)

  -- `SerializeIndex::serialize_index`
  unfoldable pub serialize_index : t.Expander → ℕ → Result Text (Option (FheTypes × Bytes))
  unfolding serialize_index_at
  serialize_index expander index = serialize_index_at (t.get_kind_of expander index) expander index

module _ (h : Hex) (c : Crypto) (t : Tfhe) (n : Bincode t) where
  -- One round of the loop over the expanded list.
  unfoldable pub extracted : t.Expander → ℕ → Result Text VerifiedCt
  unfolding codes decimal serialize_index
  extracted expander index = do
    found ←
        map_err
          (λ e.
            codes "Failed to expand ciphertext at index " ++ (decimal index ++ (codes ": " ++ e)))
          (serialize_index t n expander index)
    item ← ok_or (codes "Missing ciphertext at index " ++ decimal index) found
    ok (record { ct_hash = c.keccak256 item.1 })

  unfoldable pub verify_and_extract_hashes :
      t.ProvenCompactCiphertextList
      → t.CompactPublicKey
      → t.CompactPkeCrs
      → Text
      → ℕ
      → ℕ
      → Text
      → Result Text (List VerifiedCt)
  unfolding codes decimal without_0x reconstruct_metadata expand_from extracted
  verify_and_extract_hashes list public_key crs account_addr security_zone chain_id contract_addr =
      do
        account ←
            map_err (λ e. codes "Invalid account address: " ++ e)
              (h.decode (without_0x account_addr))
        if length account == 20
            then (do
              contract ←
                  map_err (λ e. codes "Invalid contract address: " ++ e)
                    (h.decode (without_0x contract_addr))
              expander ←
                  map_err (λ e. codes "ZK proof verification failed: " ++ e)
                    (t.verify_and_expand list crs public_key
                      (reconstruct_metadata account security_zone chain_id contract))
              expand_from (extracted expander) (t.len expander) 0 [])
            else err (codes "Account address must be 20 bytes, got " ++ decimal (length account))
