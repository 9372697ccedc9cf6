-- ===== src/Api/Persist.antt =====
-- Persisting a verified batch (zk-verifier/src/api/mod.rs): object storage and the StoreCts
-- endpoint, both at once, and both must succeed. They are different services, so each has a
-- world of its own.
pub mod Laws
use zee_k_verifier.Prelude.{
  ℕ, Bool, true, false, List, [], ◌∷◌, ◌++◌, map, Option, none, some, Result, ok, err, map_err,
  Bytes, Text, codes, with_0x, if◌then◌else◌,
}
use zee_k_verifier.Config.{RetryConfig}
use zee_k_verifier.Extern.Hex.{Hex}
use zee_k_verifier.Extern.Tfhe.{Tfhe}
use zee_k_verifier.Extern.Codec.{Codec}
use zee_k_verifier.Verifier.{VerifiedCt}
use zee_k_verifier.Storage.Errors.{
  StorageError, timeout, network, permission_denied, not_found, serialization, display,
  StorageResult,
}
use zee_k_verifier.Storage.Objects.{StoredCiphertext, StoredProof}
use zee_k_verifier.Storage.Manager.{StorageProvider, CtData, Request}
use zee_k_verifier.Storage.Manager.Join.{Calls, store_proof_and_cts}
use zee_k_verifier.Api.Hash.{adjust_hash_for_metadata}
use zee_k_verifier.Api.StoreCts.{Post, StoreCtsRun, store_cts_internally_retryable}

-- An HTTP status with a message.
abbrev pub Failure : Type 0
Failure = ℕ × Text

abbrev pub status_of : StorageError → ℕ
status_of (timeout _ _) = 504
status_of (network _) = 502
status_of (permission_denied _) = 403
status_of (not_found _) = 404
status_of (serialization _) = 400
status_of _ = 500

pub external_failure : StorageError → Failure
unfolding codes
external_failure e = (status_of e, codes "Saving to external storage failed: " ++ display e)

pub store_cts_failure : Text → Failure
unfolding codes
store_cts_failure e = (500, codes "store_cts failed: " ++ e)

-- The first error decides the status; the client gets a general message.
unfoldable pub persist_result :
    Result Failure Text → Result Failure (Unit {0}) → Result Failure (Unit {0})
unfolding codes
persist_result (err failure) store_cts = err (failure.0, codes "Could not persist data")
persist_result (ok proof_id) (err failure) = err (failure.0, codes "Could not persist data")
persist_result (ok proof_id) (ok _) = ok tt

-- What the service talks to; without storage configured, nothing is uploaded.
pub record Services (S P : Type 0) : Type 0 where
  pub has_storage : Bool
  pub retry_config : RetryConfig
  pub provider : StorageProvider S
  pub blake3_hex : Bytes → Text
  pub array_to_string : List Text → Text
  pub ct_codec : Codec StoredCiphertext
  pub proof_codec : Codec StoredProof
  pub post : Post P
  pub external_endpoint : Text

pub record Persisted (S P : Type 0) : Type 0 where
  pub result : Result Failure (Unit {0})
  pub stored : StorageResult Text
  pub calls : Calls
  pub storage : S
  pub posted : StoreCtsRun P

module _ (h : Hex) (t : Tfhe) where
  -- A ciphertext goes to storage under its adjusted hash.
  abbrev pub ct_data_of : ℕ → VerifiedCt → CtData
  ct_data_of zone verified = record {
    ct_hash = with_0x (
        h.encode
          (adjust_hash_for_metadata verified.ct_hash (t.discriminant verified.ct_type) zone false));
    ct_bytes = verified.ct_bytes;
    ct_type = t.discriminant verified.ct_type;
  }

  module _ {S P : Type 0} (services : Services S P) where
    unfoldable pub external_storage :
        Request → Bytes → List VerifiedCt → List ℕ → S → Option (StorageResult Text × Calls × S)
    external_storage request packed_list_bytes cts schedule s =
        if services.has_storage
        then store_proof_and_cts services.retry_config services.provider services.blake3_hex
            services.array_to_string services.ct_codec services.proof_codec request
            packed_list_bytes (map (ct_data_of request.security_zone) cts) schedule s
        else some (ok [], [], s)

    unfoldable pub persisted :
        StoreCtsRun P → Option (StorageResult Text × Calls × S) → Option (Persisted S P)
    unfolding persist_result external_failure store_cts_failure
    persisted run none = none
    persisted run (some (stored, calls, s)) = some (record {
      result =
          persist_result (map_err external_failure stored) (map_err store_cts_failure run.result);
      stored = stored;
      calls = calls;
      storage = s;
      posted = run;
    })

    -- Five retries from one second. `none` says that the schedule of the uploads was too short.
    unfoldable pub persist_cts :
        Request → Text → Bytes → List VerifiedCt → List ℕ → S → P → Option (Persisted S P)
    unfolding persisted external_storage
    persist_cts request log_context packed_list_bytes cts schedule s p =
        persisted
          (store_cts_internally_retryable h t services.post log_context services.external_endpoint
            cts request.chain_id request.security_zone 5 1000 p)
          (external_storage request packed_list_bytes cts schedule s)
