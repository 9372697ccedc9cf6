-- ===== src/Api/Batch.antt =====
-- The handler of `POST /verifyBatch` (zk-verifier/src/api/mod.rs). Whether the request is admitted
-- and whether the blocking task panics are arguments of a run.
pub mod Signed
pub mod Laws
mod Tests
use zee_k_verifier.Prelude.{
  ℕ, Bool, true, false, List, [], ◌∷◌, ◌++◌, map, Option, none, some, Result, ok, err, map_err,
  ◌>>=◌, Bytes, Text, codes, with_0x,
}
use zee_k_verifier.Extern.Hex.{Hex}
use zee_k_verifier.Extern.Crypto.{Crypto}
use zee_k_verifier.Extern.Tfhe.{Tfhe}
use zee_k_verifier.Verifier.{VerifiedCt, VerifiedBatch, Verifier, verify_and_sign_batch}
use zee_k_verifier.Verifier.Errors.{shown}
use zee_k_verifier.Verifier.Expander.{safe_deserialize}
use zee_k_verifier.Storage.Manager.{Request}
use zee_k_verifier.Api.Address.{canonical_contract_address}
use zee_k_verifier.Api.Persist.{Failure, Services, Persisted, persist_cts}

pub record VerifyRequest : Type 0 where
  pub packed_list : Bytes
  pub account_addr : Text
  pub security_zone : ℕ
  pub chain_id : ℕ
  pub contract_address : Text

pub record CiphertextResponse : Type 0 where
  pub ct_hash : Text
  pub ct_type : ℕ

pub data BatchVerifyResponse : Type 0 where
  success :
      (ciphertexts : List CiphertextResponse) (signature : Text) (recid : ℕ) → BatchVerifyResponse
  error : (message : Text) → BatchVerifyResponse

pub record Response : Type 0 where
  pub status : ℕ
  pub retry_after : Option Text
  pub body : BatchVerifyResponse

-- How a blocking task ends.
pub data Joined (A : Type 0) : Type 0 where
  finished : Result Text A → Joined A
  panicked : Text → Joined A

module _ {A : Type 0} where
  unfoldable pub spawned : Option Text → Result Text A → Joined A
  spawned none result = finished result
  spawned (some e) result = panicked e

  -- The end of `gated_verify`.
  unfoldable pub gated : Joined A → Result Failure A
  unfolding codes
  gated (finished (ok out)) = ok out
  gated (finished (err e)) = err (400, e)
  gated (panicked e) = err (500, codes "internal error")

  unfoldable pub gated_verify : Option Text → Result Text A → Result Failure A
  unfolding spawned gated
  gated_verify panic result = gated (spawned panic result)

pub error_response : Failure → Response
error_response failure = record { status = failure.0; retry_after = none; body = error failure.1 }

pub busy : Response
unfolding codes
busy = record {
  status = 503;
  retry_after = some (codes "1");
  body = error (codes "Server busy, retry shortly");
}

pub not_deserialized : Text → Text
unfolding codes
not_deserialized e = codes "failed to deserialize packed list: " ++ e

module _ (h : Hex) (c : Crypto) (t : Tfhe) where
  abbrev pub Batch : Type 0
  Batch = VerifiedBatch h c t

  unfoldable pub verify_and_sign_batch_impl :
      Verifier h c t → VerifyRequest → Text → Result Text Batch
  unfolding codes
  verify_and_sign_batch_impl v request contract_address = do
    packed_list ← map_err not_deserialized (safe_deserialize t request.packed_list)
    map_err (λ e. codes "failed to verify and sign batch: " ++ shown e)
        (verify_and_sign_batch h c t v packed_list request.account_addr request.security_zone
          request.chain_id contract_address)

  -- All that comes before persisting: the canonical address, and the batch for it.
  unfoldable pub verified :
      Verifier h c t → Option Text → VerifyRequest → Result Failure (Text × Batch)
  verified v panic request = do
    canonical ← map_err (λ m. (400, m)) (canonical_contract_address h request.contract_address)
    batch ← gated_verify panic (verify_and_sign_batch_impl v request canonical)
    ok (canonical, batch)

  abbrev pub entry : VerifiedCt → CiphertextResponse
  entry verified = record {
    ct_hash = with_0x (h.encode verified.ct_hash);
    ct_type = t.discriminant verified.ct_type;
  }

  -- The hashes are not the adjusted ones: these were signed.
  abbrev pub success_response : Batch → Response
  success_response batch = record {
    status = 200;
    retry_after = none;
    body =
        success (map entry batch.cts) (with_0x (h.encode (c.sig_to_bytes batch.signature)))
          (c.to_byte batch.recid);
  }

  module _ {S P : Type 0} (services : Services S P) where
    -- A response, with what has been persisted before it.
    pub record Handled : Type 0 where
      pub response : Response
      pub persisted : Option (Persisted S P)

    pub reply : Batch → Result Failure (Unit {0}) → Response
    unfolding error_response
    reply batch (ok _) = success_response batch
    reply batch (err failure) = error_response failure

    pub after_persist : Batch → Option (Persisted S P) → Option Handled
    unfolding reply
    after_persist batch none = none
    after_persist batch (some p) =
        some (record { response = reply batch p.result; persisted = some p })

    -- What is stored beside a batch.
    abbrev pub storage_request : VerifyRequest → Text → Text → Request
    storage_request request canonical now = record {
      account_addr = request.account_addr;
      security_zone = request.security_zone;
      chain_id = request.chain_id;
      contract_addr = canonical;
      timestamp = now;
    }

    pub after_verify :
        VerifyRequest
        → Text
        → Text
        → List ℕ
        → S
        → P
        → Result Failure (Text × Batch)
        → Option Handled
    unfolding after_persist error_response
    after_verify request now log_context schedule s p (err failure) =
        some (record { response = error_response failure; persisted = none })
    after_verify request now log_context schedule s p (ok (canonical, batch)) =
        after_persist batch (
          persist_cts h t services (storage_request request canonical now) log_context
            request.packed_list batch.cts schedule s p)

    unfoldable pub handle :
        Verifier h c t
        → (admitted : Bool) → Option Text
        → VerifyRequest
        → Text
        → Text
        → List ℕ
        → S
        → P
        → Option Handled
    unfolding after_verify busy
    handle v false panic request now log_context schedule s p =
        some (record { response = busy; persisted = none })
    handle v true panic request now log_context schedule s p =
        after_verify request now log_context schedule s p (verified v panic request)
