-- ===== src/Audit/Layouts.antt =====
-- The two layouts of stored proofs that the checker reads.
use zee_k_verifier.Prelude.{
  ℕ, ◌<◌, List, [], ◌++◌, Result, ok, err, map_err, Bytes, Text, codes, ◌≡◌, refl,
}
use zee_k_verifier.Extern.Codec.{Codec}
use zee_k_verifier.Storage.Objects.{StoredCiphertext, StoredProof}

pub record LegacyProofMetadata : Type 0 where
  pub proof_id : Text
  pub account_addr : Text
  pub security_zone : ℕ
  pub chain_id : ℕ
  pub ct_hashes : List Text
  pub ct_count : ℕ
  pub timestamp : Text

pub record LegacyStoredProof : Type 0 where
  pub metadata : LegacyProofMetadata
  pub proof_data : Bytes

-- The current form of a proof of the older layout: no contract.
unfoldable pub upgraded : LegacyStoredProof → StoredProof
upgraded legacy =
    let m = legacy.metadata in
    record {
      metadata = record {
        proof_id = m.proof_id;
        account_addr = m.account_addr;
        security_zone = m.security_zone;
        chain_id = m.chain_id;
        ct_hashes = m.ct_hashes;
        ct_count = m.ct_count;
        timestamp = m.timestamp;
        contract_addr = [];
      };
      proof_data = legacy.proof_data;
    }

-- bincode at the three types; only the current ones are written by the service.
pub record Layered : Type 0 where
  pub ciphertexts : Codec StoredCiphertext
  pub current : Codec StoredProof
  pub previous : Codec LegacyStoredProof

module _ (b : Layered) where
  -- `StoredCiphertext::from_bytes`
  unfoldable pub stored_ct_from_bytes : Bytes → Result Text StoredCiphertext
  unfolding codes
  stored_ct_from_bytes bytes =
      map_err (λ e. codes "Failed to deserialize StoredCiphertext: " ++ e)
        (b.ciphertexts.deserialize bytes)

  -- The answer of the second attempt.
  unfoldable pub as_previous : Result Text LegacyStoredProof → Result Text StoredProof
  unfolding codes upgraded
  as_previous (ok legacy) = ok (upgraded legacy)
  as_previous (err e) = err (codes "Failed to deserialize StoredProof: " ++ e)

  unfoldable pub current_or_previous : Result Text StoredProof → Bytes → Result Text StoredProof
  unfolding as_previous
  current_or_previous (ok current) bytes = ok current
  current_or_previous (err e) bytes = as_previous (b.previous.deserialize bytes)

  -- `StoredProof::from_bytes`
  unfoldable pub stored_proof_from_bytes : Bytes → Result Text StoredProof
  unfolding current_or_previous
  stored_proof_from_bytes bytes = current_or_previous (b.current.deserialize bytes) bytes

-- What bincode does with the layouts: the zone fits its byte; each reads what was written under it, and the current one
-- does not read the previous one's bytes, where nothing is left for its last field.
pub record IsLayered (b : Layered) : Type 0 where
  -- The security zone is a `u8`.
  pub zone_fits :
      (s : StoredCiphertext) (bytes : Bytes)
      → b.ciphertexts.deserialize bytes ≡ ok s
      → s.metadata.security_zone < 256
  pub current_reads :
      (p : StoredProof) (bytes : Bytes)
      → b.current.serialize p ≡ ok bytes
      → b.current.deserialize bytes ≡ ok p
  pub previous_reads :
      (p : LegacyStoredProof) (bytes : Bytes)
      → b.previous.serialize p ≡ ok bytes
      → b.previous.deserialize bytes ≡ ok p
  pub current_refuses :
      (p : LegacyStoredProof) (bytes : Bytes)
      → b.previous.serialize p ≡ ok bytes
      → (e : Text) × (b.current.deserialize bytes ≡ err e)

pub current_reads :
    (b : Layered)
    → IsLayered b
    → (p : StoredProof) (bytes : Bytes) → b.current.serialize p ≡ ok bytes
    → stored_proof_from_bytes b bytes ≡ ok p
unfolding stored_proof_from_bytes
current_reads b laws p bytes e = rw (laws.current_reads p bytes e, current_or_previous) refl

previous_reads :
    (b : Layered)
    → IsLayered b
    → (p : LegacyStoredProof) (bytes : Bytes) → b.previous.serialize p ≡ ok bytes
    → stored_proof_from_bytes b bytes ≡ ok (upgraded p)
unfolding stored_proof_from_bytes
previous_reads b laws p bytes e =
    let (why, refuses) = laws.current_refuses p bytes e in
    rw (refuses, current_or_previous, laws.previous_reads p bytes e, as_previous) refl

-- A proof of the current form that says what one of the older layout says, and names no contract.
pub record Keeps (older : LegacyStoredProof) (read : StoredProof) : Type 0 where
  pub proof_id : read.metadata.proof_id ≡ older.metadata.proof_id
  pub account_addr : read.metadata.account_addr ≡ older.metadata.account_addr
  pub security_zone : read.metadata.security_zone ≡ older.metadata.security_zone
  pub chain_id : read.metadata.chain_id ≡ older.metadata.chain_id
  pub ct_hashes : read.metadata.ct_hashes ≡ older.metadata.ct_hashes
  pub ct_count : read.metadata.ct_count ≡ older.metadata.ct_count
  pub timestamp : read.metadata.timestamp ≡ older.metadata.timestamp
  pub contract_addr : read.metadata.contract_addr ≡ []
  pub proof_data : read.proof_data ≡ older.proof_data

upgraded-Keeps : (older : LegacyStoredProof) → Keeps older (upgraded older)
unfolding upgraded
upgraded-Keeps older = record {
  proof_id = refl;
  account_addr = refl;
  security_zone = refl;
  chain_id = refl;
  ct_hashes = refl;
  ct_count = refl;
  timestamp = refl;
  contract_addr = refl;
  proof_data = refl;
}

-- By the laws of the two layouts, `StoredProof::from_bytes` gives back every proof that was written
-- under the current layout, and every proof written under the previous one with the same metadata,
-- an empty contract and the same proof bytes.
pub stored_proof_from_bytes_reads :
    (b : Layered)
    → IsLayered b
    → (p : StoredProof) (bytes : Bytes) (older : LegacyStoredProof) (older_bytes : Bytes)
    → b.current.serialize p ≡ ok bytes
    → b.previous.serialize older ≡ ok older_bytes
    → (stored_proof_from_bytes b bytes ≡ ok p)
      × (read : StoredProof) × (stored_proof_from_bytes b older_bytes ≡ ok read)
      × Keeps older read
stored_proof_from_bytes_reads b laws p bytes older older_bytes e e' = (
  current_reads b laws p bytes e,
  upgraded older,
  previous_reads b laws older older_bytes e',
  upgraded-Keeps older,
)
