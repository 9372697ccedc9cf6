-- ===== src/Storage/Manager.antt =====
-- The storage manager (zk-verifier/src/storage/storage_manager.rs): what it uploads for a verified
-- batch, and the uploads run at once.
pub mod Number
pub mod Join
pub mod Landing
pub mod Ends
pub mod Laws
mod Tests
use zee_k_verifier.Prelude.{
  ℕ, zero, suc, ◌+◌, List, [], ◌∷◌, ◌++◌, map, Option, none, some, Result, ok, err, Bytes, Text,
  decimal, with_0x, length, unwrap_or,
}
use zee_k_verifier.Config.{RetryConfig}
use zee_k_verifier.Extern.Codec.{Codec}
use zee_k_verifier.Extern.Bucket.{StringMap}
use zee_k_verifier.Storage.Errors.{StorageError, StorageResult}
use zee_k_verifier.Storage.Objects.{
  CtMetadata, StoredCiphertext, ProofMetadata, StoredProof, ct_to_map, proof_to_map, ct_to_bytes,
  proof_to_bytes,
}
use zee_k_verifier.Storage.Paths.{cts_type, proofs_type, build_base_path}
use zee_k_verifier.Storage.Manager.Number.{parse_u32}
use zee_k_verifier.Storage.Retry.{Kind, ct, proof, Run, retry_operation}

-- The trait `StorageProvider`, on a world.
pub record StorageProvider (W : Type 0) : Type 0 where
  pub upload :
      Text → Bytes → Option StringMap → Option Text → Option Text → W → StorageResult (Unit {0}) × W
  pub backend_name : Text
  pub probe : W → StorageResult (Unit {0}) × W

-- One object to store: its bytes are an error if it could not be serialized.
pub record Upload : Type 0 where
  pub kind : Kind
  pub key : Text
  pub bytes : StorageResult Bytes
  pub metadata : StringMap
  pub base_path : Text

-- What a batch is stored for.
pub record Request : Type 0 where
  pub account_addr : Text
  pub security_zone : ℕ
  pub chain_id : ℕ
  pub contract_addr : Text
  pub timestamp : Text

-- A verified ciphertext: its hash, its bytes, its type.
pub record CtData : Type 0 where
  pub ct_hash : Text
  pub ct_bytes : Bytes
  pub ct_type : ℕ

module _ (array_to_string : List Text → Text) where
  unfoldable pub ct_upload : Codec StoredCiphertext → Text → Bytes → CtMetadata → ℕ → Upload
  ct_upload c ct_hash ct_bytes metadata chain_id = record {
    kind = ct;
    key = ct_hash;
    bytes = ct_to_bytes c (record { metadata = metadata; ct_data = ct_bytes });
    metadata = ct_to_map array_to_string metadata;
    base_path = build_base_path chain_id metadata.security_zone cts_type;
  }

  -- The chain id comes as text; text that is no number counts as zero.
  unfoldable pub proof_upload : Codec StoredProof → Text → Bytes → ProofMetadata → Text → Upload
  proof_upload c proof_id proof_bytes metadata chain_id = record {
    kind = proof;
    key = proof_id;
    bytes = proof_to_bytes c (record { metadata = metadata; proof_data = proof_bytes });
    metadata = proof_to_map array_to_string metadata;
    base_path =
        build_base_path (unwrap_or 0 (parse_u32 chain_id)) metadata.security_zone proofs_type;
  }

module _ {W : Type 0} (provider : StorageProvider W) where
  -- One call of the provider for an object.
  abbrev pub attempt : Upload → Bytes → W → StorageResult (Unit {0}) × W
  attempt u bytes w = provider.upload u.key bytes (some u.metadata) (some u.base_path) none w

  -- `store_ct_with_retry` and `store_proof_with_retry` after the object is made: no call if it
  -- could not be serialized, else the retry loop.
  unfoldable pub store_with_retry : RetryConfig → Upload → W → Option (Run W)
  store_with_retry cfg u w = elim u.bytes [
    | err e ↦ some (record { result = err e; world = w; effects = [] })
    | ok bytes ↦ retry_operation cfg u.kind (attempt u bytes) w
  ]

module _ (blake3_hex : Bytes → Text) where
  unfoldable pub calculate_proof_id : Bytes → Text
  calculate_proof_id proof_bytes = with_0x (blake3_hex proof_bytes)

  module _ (array_to_string : List Text → Text) (codec : Codec StoredCiphertext)
      (proof_codec : Codec StoredProof) (request : Request) (proven_list_bytes : Bytes) where
    -- The metadata of the ciphertext at an index.
    abbrev pub ct_metadata : ℕ → CtData → CtMetadata
    ct_metadata index c = record {
      ct_hash = c.ct_hash;
      proof_id = calculate_proof_id proven_list_bytes;
      account_addr = request.account_addr;
      security_zone = request.security_zone;
      chain_id = request.chain_id;
      ct_index = index;
      ct_type = c.ct_type;
      timestamp = request.timestamp;
    }

    abbrev pub proof_metadata : List CtData → ProofMetadata
    proof_metadata cts = record {
      proof_id = calculate_proof_id proven_list_bytes;
      account_addr = request.account_addr;
      security_zone = request.security_zone;
      chain_id = request.chain_id;
      ct_hashes = map (λ c. c.ct_hash) cts;
      ct_count = length cts;
      timestamp = request.timestamp;
      contract_addr = request.contract_addr;
    }

    abbrev pub ct_of : ℕ → CtData → Upload
    ct_of index c =
        ct_upload array_to_string codec c.ct_hash c.ct_bytes (ct_metadata index c) request.chain_id

    abbrev pub proof_of : List CtData → Upload
    proof_of cts =
        proof_upload array_to_string proof_codec (calculate_proof_id proven_list_bytes)
          proven_list_bytes (proof_metadata cts) (decimal request.chain_id)

    -- The uploads of a batch: a ciphertext each, in order, then the proof.
    unfoldable pub uploads_from : ℕ → List CtData → Upload → List Upload
    uploads_from index [] last = last ∷ []
    uploads_from index (c ∷ cts) last = ct_of index c ∷ uploads_from (suc index) cts last

    unfoldable pub uploads : List CtData → List Upload
    unfolding uploads_from
    uploads cts = uploads_from 0 cts (proof_of cts)
