-- ===== src/Audit/Run.antt =====
-- One run of the checker: `run_verification`, with the keys it loads.
use zee_k_verifier.Prelude.{
  ℕ, ◌/◌, ◌%◌, Bool, true, ◌++◌, length, get_elem?, Option, Result, ok, err, map_err, ok_or, ◌>>=◌,
  Bytes, Text, codes, decimal, without_0x, with_0x, text_eq, ◌==◌, if◌then◌else◌,
}
use zee_k_verifier.Extern.Hex.{Hex}
use zee_k_verifier.Extern.Crypto.{Crypto}
use zee_k_verifier.Extern.Tfhe.{Tfhe}
use zee_k_verifier.Extern.TfheKeys.{TfheKeys}
use zee_k_verifier.Extern.Download.{Reader, Files}
use zee_k_verifier.Storage.Objects.{StoredCiphertext, StoredProof}
use zee_k_verifier.Verifier.Expander.{safe_serialization_size_limit}
use zee_k_verifier.Api.Hash.{
  trivial_encrypt_and_type_byte, security_zone_byte, masked, adjust_hash_for_metadata,
}
use zee_k_verifier.Audit.Layouts.{Layered}
use zee_k_verifier.Audit.Fetch.{
  Stop, failed, panicked, describing, or_panic, fetch_ciphertext, fetch_proof,
}
use zee_k_verifier.Audit.Proof.{Bincode, VerifiedCt, verify_and_extract_hashes}

pub record KeyConfig : Type 0 where
  pub crs_path : Text
  pub pk_path : Text
  pub sk_path : Text

pub record StorageConfig : Type 0 where
  pub bucket : Text

pub record Config : Type 0 where
  pub keys : KeyConfig
  pub storage : Option StorageConfig

pub record MetadataOutput : Type 0 where
  pub account_addr : Text
  pub security_zone : ℕ
  pub chain_id : ℕ
  pub ct_index : ℕ
  pub ct_type : ℕ
  pub timestamp : Text

pub record VerificationDetails : Type 0 where
  pub proof_valid : Bool
  pub ct_hash_matches : Bool

pub record VerificationResult : Type 0 where
  pub status : Text
  pub ct_hash : Text
  pub proof_id : Text
  pub metadata : MetadataOutput
  pub verification : VerificationDetails

-- `.expect("...")`
abbrev expected : {A : Type 0} → Result Text A → Result Stop A
expected (ok a) = ok a
expected (err e) = err panicked

-- What a hash says of itself: its security zone, its type, and the trivial encryption flag.
pub record HashMetadata : Type 0 where
  pub security_zone : ℕ
  pub ct_type : ℕ
  pub is_trivially_encrypted : Bool

-- `byte & TRIVIAL_ENCRYPT_FLAG != 0`
abbrev pub is_flagged : ℕ → Bool
is_flagged byte = (byte / 128 % 2) == 1

module _ (h : Hex) where
  unfoldable pub parse_hash : Text → Result Stop HashMetadata
  unfolding codes decimal without_0x
  parse_hash ct_hash = do
    bytes ←
        map_err (λ e. failed (codes "Invalid CT hash format: " ++ e))
          (h.decode (without_0x ct_hash))
    if length bytes == 32
        then (do
          security_zone ← or_panic (get_elem? bytes security_zone_byte)
          type_and_flag ← or_panic (get_elem? bytes trivial_encrypt_and_type_byte)
          ok (record {
            security_zone = security_zone;
            ct_type = masked type_and_flag;
            is_trivially_encrypted = is_flagged type_and_flag;
          }))
        else err (failed (codes "CT hash must be 32 bytes, got " ++ decimal (length bytes)))

  -- `format!("0x{}", hex::encode(adjust_hash_for_metadata(...)))`, with the metadata of an object.
  unfoldable pub shown_hash : Bytes → StoredCiphertext → Bool → Text
  unfolding with_0x adjust_hash_for_metadata
  shown_hash hash stored flag = with_0x (
      h.encode
        (adjust_hash_for_metadata hash stored.metadata.ct_type stored.metadata.security_zone flag))

  -- The last comparison, and the result.
  unfoldable pub reported : StoredCiphertext → Bool → VerifiedCt → VerificationResult
  unfolding codes text_eq shown_hash
  reported stored flag verified =
      let m = stored.metadata in
      let matches = text_eq (shown_hash verified.ct_hash stored flag) m.ct_hash in
      record {
        status = if matches then codes "success" else codes "mismatch";
        ct_hash = m.ct_hash;
        proof_id = m.proof_id;
        metadata = record {
          account_addr = m.account_addr;
          security_zone = m.security_zone;
          chain_id = m.chain_id;
          ct_index = m.ct_index;
          ct_type = m.ct_type;
          timestamp = m.timestamp;
        };
        verification = record { proof_valid = true; ct_hash_matches = matches };
      }

module _ (t : Tfhe) (k : TfheKeys t) (files : Files) where
  pub record Keys : Type 0 where
    pub crs : t.CompactPkeCrs
    pub pk : t.CompactPublicKey
    pub server_key : t.ServerKey

  -- `load_keys`: a file that cannot be read or parsed is a panic.
  unfoldable pub load_keys : KeyConfig → Result Stop Keys
  load_keys config = do
    crs_bytes ← expected (files config.crs_path)
    crs ← expected (k.crs_from crs_bytes safe_serialization_size_limit)
    pk_bytes ← expected (files config.pk_path)
    pk ← expected (k.public_key_from pk_bytes safe_serialization_size_limit)
    sk_bytes ← expected (files config.sk_path)
    compressed ← expected (k.compressed_server_key_from sk_bytes safe_serialization_size_limit)
    ok (record { crs = crs; pk = pk; server_key = k.decompress compressed })

module _ (h : Hex) (c : Crypto) (t : Tfhe) (n : Bincode t) where
  -- From the two stored objects on.
  unfoldable pub compared :
      t.CompactPkeCrs
      → t.CompactPublicKey
      → StoredCiphertext
      → StoredProof
      → Bool
      → Result Stop VerificationResult
  unfolding codes decimal reported verify_and_extract_hashes
  compared crs pk stored proof flag = do
    let m = stored.metadata
    list ←
        map_err (λ e. failed (codes "Failed to deserialize proof: " ++ e))
          (n.deserialize proof.proof_data)
    verified ←
        map_err (λ e. failed (codes "Proof verification failed: " ++ e))
          (verify_and_extract_hashes h c t n list pk crs m.account_addr m.security_zone m.chain_id
            proof.metadata.contract_addr)
    at_index ←
        ok_or
          (failed (
            codes "CT index "
            ++ (decimal m.ct_index
                ++ (codes " not found in verified list of "
                    ++ (decimal (length verified) ++ codes " CTs")))))
          (get_elem? verified m.ct_index)
    ok (reported h stored flag at_index)

module _ (h : Hex) (c : Crypto) (t : Tfhe) (k : TfheKeys t) (n : Bincode t) (b : Layered) where
  -- From the stored ciphertext on: its bytes must hash to what its metadata says.
  unfoldable pub audited :
      Reader
      → Text
      → t.CompactPkeCrs
      → t.CompactPublicKey
      → StoredCiphertext
      → Text
      → Bool
      → Result Stop VerificationResult
  unfolding codes text_eq shown_hash compared fetch_proof
  audited storage parent crs pk stored prefix flag =
      let m = stored.metadata in
      if text_eq (shown_hash h (c.keccak256 stored.ct_data) stored flag) m.ct_hash
      then (do
        proof ←
            map_err (describing (codes "Failed to fetch proof: "))
              (fetch_proof b storage parent m.proof_id m.chain_id m.security_zone prefix)
        compared h c t n crs pk stored proof flag)
      else err (failed (codes "Stored CT data corruption detected"))

  -- `client` is what building the storage client gives. The server key that is loaded is set for
  -- the `tfhe` crate, which keeps it to itself.
  unfoldable pub run_verification :
      Files → Result Text Reader → Text → ℕ → Config → Result Stop VerificationResult
  unfolding codes parse_hash load_keys fetch_ciphertext audited
  run_verification files client ct_hash chain_id config = do
    storage_config ← ok_or (failed (codes "No storage configuration")) config.storage
    said ← parse_hash h ct_hash
    storage ← map_err (λ e. failed (codes "Failed to create GCS client: " ++ e)) client
    let parent = codes "projects/_/buckets/" ++ storage_config.bucket
    keys ← load_keys t k files config.keys
    found ←
        map_err (describing (codes "Failed to fetch ciphertext: "))
          (fetch_ciphertext b storage parent ct_hash chain_id said.security_zone)
    audited storage parent keys.crs keys.pk found.0 found.1 said.is_trivially_encrypted
