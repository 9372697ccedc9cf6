-- ===== src/Storage/Objects.antt =====
-- The objects that the service stores, and the metadata beside them
-- (zk-verifier/src/storage/types.rs).
mod Tests
use zee_k_verifier.Prelude.{
  ℕ, List, [], ◌∷◌, map, Option, none, some, Result, Bytes, Text, codes, decimal, map_err, ◌++◌,
  text_eq, if◌then◌else◌,
}
use zee_k_verifier.Extern.Codec.{Codec}
use zee_k_verifier.Extern.Bucket.{StringMap}
use zee_k_verifier.Storage.Errors.{StorageError, serialization, StorageResult}

pub record CtMetadata : Type 0 where
  pub ct_hash : Text
  pub proof_id : Text
  pub account_addr : Text
  pub security_zone : ℕ
  pub chain_id : ℕ
  pub ct_index : ℕ
  pub ct_type : ℕ
  pub timestamp : Text

pub record StoredCiphertext : Type 0 where
  pub metadata : CtMetadata
  pub ct_data : Bytes

pub record ProofMetadata : Type 0 where
  pub proof_id : Text
  pub account_addr : Text
  pub security_zone : ℕ
  pub chain_id : ℕ
  pub ct_hashes : List Text
  pub ct_count : ℕ
  pub timestamp : Text
  pub contract_addr : Text

pub record StoredProof : Type 0 where
  pub metadata : ProofMetadata
  pub proof_data : Bytes

-- The JSON values that the two kinds of metadata hold.
pub data Value : Type 0 where
  string : Text → Value
  number : ℕ → Value
  array : List Text → Value

unfoldable pub lookup : Text → StringMap → Option Text
lookup key [] = none
lookup key ((k, v) ∷ rest) = let later = lookup key rest in if text_eq key k then some v else later

-- The fields of the objects that `serde_json::to_value` makes of the metadata.
abbrev pub ct_fields : CtMetadata → List (Text × Value)
unfolding codes
ct_fields m =
    (codes "ct_hash", string m.ct_hash)
    ∷ (codes "proof_id", string m.proof_id)
    ∷ (codes "account_addr", string m.account_addr)
    ∷ (codes "security_zone", number m.security_zone)
    ∷ (codes "chain_id", number m.chain_id)
    ∷ (codes "ct_index", number m.ct_index)
    ∷ (codes "ct_type", number m.ct_type)
    ∷ (codes "timestamp", string m.timestamp)
    ∷ []

abbrev pub proof_fields : ProofMetadata → List (Text × Value)
unfolding codes
proof_fields m =
    (codes "proof_id", string m.proof_id)
    ∷ (codes "account_addr", string m.account_addr)
    ∷ (codes "security_zone", number m.security_zone)
    ∷ (codes "chain_id", number m.chain_id)
    ∷ (codes "ct_hashes", array m.ct_hashes)
    ∷ (codes "ct_count", number m.ct_count)
    ∷ (codes "timestamp", string m.timestamp)
    ∷ (codes "contract_addr", string m.contract_addr)
    ∷ []

module _ (array_to_string : List Text → Text) where
  -- A string stays as it is; any other value is printed.
  pub value_to_string : Value → Text
  value_to_string (string s) = s
  value_to_string (number n) = decimal n
  value_to_string (array ts) = array_to_string ts

  unfoldable pub metadata_to_map : List (Text × Value) → StringMap
  metadata_to_map fields = map (λ f. (f.0, value_to_string f.1)) fields

  unfoldable pub ct_to_map : CtMetadata → StringMap
  unfolding metadata_to_map
  ct_to_map m = metadata_to_map (ct_fields m)

  unfoldable pub proof_to_map : ProofMetadata → StringMap
  unfolding metadata_to_map
  proof_to_map m = metadata_to_map (proof_fields m)

module _ (c : Codec StoredCiphertext) where
  unfoldable pub ct_to_bytes : StoredCiphertext → StorageResult Bytes
  unfolding codes
  ct_to_bytes s =
      map_err (λ e. serialization (codes "Failed to serialize StoredCiphertext: " ++ e))
        (c.serialize s)

  pub ct_from_bytes : Bytes → StorageResult StoredCiphertext
  unfolding codes
  ct_from_bytes b =
      map_err (λ e. serialization (codes "Failed to deserialize StoredCiphertext: " ++ e))
        (c.deserialize b)

module _ (c : Codec StoredProof) where
  unfoldable pub proof_to_bytes : StoredProof → StorageResult Bytes
  unfolding codes
  proof_to_bytes s =
      map_err (λ e. serialization (codes "Failed to serialize StoredProof: " ++ e)) (c.serialize s)

  pub proof_from_bytes : Bytes → StorageResult StoredProof
  unfolding codes
  proof_from_bytes b =
      map_err (λ e. serialization (codes "Failed to deserialize StoredProof: " ++ e))
        (c.deserialize b)
