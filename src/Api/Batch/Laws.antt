-- ===== src/Api/Batch/Laws.antt =====
-- What a successful answer says: the batch was verified, signed, stored and handed on.
use zee_k_verifier.Prelude.{ℕ, Bool, true, false, List, none, some, ok, Text, ◌≡◌, [], map, with_0x}
use zee_k_verifier.Extern.Hex.{Hex}
use zee_k_verifier.Extern.Crypto.{Crypto}
use zee_k_verifier.Extern.Tfhe.{Tfhe}
use zee_k_verifier.Verifier.{VerifiedCt, Verifier}
use zee_k_verifier.Storage.Manager.{Request}
use zee_k_verifier.Storage.Manager.Join.{Calls, store_proof_and_cts}
use zee_k_verifier.Api.Hash.{adjust_hash_for_metadata}
use zee_k_verifier.Api.StoreCts.{store_cts_internally_retryable}
use zee_k_verifier.Api.Persist.{Services}
use zee_k_verifier.Api.Batch.{VerifyRequest, Response, success, Batch}
use zee_k_verifier.Api.Batch.Signed.{Signed}

module _ (h : Hex) (c : Crypto) (t : Tfhe) (v : Verifier h c t) where
  module _ {S P : Type 0} (services : Services S P) (request : VerifyRequest)
      (now log_context : Text) (schedule : List ℕ) (s : S) (p : P) where
    -- The batch is kept as a request: by object storage under a proof id, each ciphertext with the
    -- hash adjusted to its type and zone, if storage is configured; else nothing is called.
    abbrev Kept : Bool → Request → List VerifiedCt → Text → Calls → S → Type 0
    Kept true kept cts id calls storage =
        store_proof_and_cts services.retry_config services.provider services.blake3_hex
          services.array_to_string services.ct_codec services.proof_codec kept request.packed_list
          (map
            (λ ct. record {
              ct_hash = with_0x (
                  h.encode (
                    adjust_hash_for_metadata ct.ct_hash (t.discriminant ct.ct_type)
                      kept.security_zone false));
              ct_bytes = ct.ct_bytes;
              ct_type = t.discriminant ct.ct_type;
            })
            cts)
          schedule s
        ≡ some (ok id, calls, storage)
    Kept false kept cts id calls storage = (calls ≡ []) × (storage ≡ s)

    -- What stands behind a successful answer.
    pub record Served (response : Response) : Type 0 where
      pub canonical : Text
      pub batch : Batch h c t
      pub signed : Signed h c t v request canonical batch
      pub answer : response ≡ record {
        status = 200;
        retry_after = none;
        body =
            success
              (map
                (λ ct. record {
                  ct_hash = with_0x (h.encode ct.ct_hash);
                  ct_type = t.discriminant ct.ct_type;
                })
                batch.cts)
              (with_0x (h.encode (c.sig_to_bytes batch.signature)))
              (c.to_byte batch.recid);
      }
      pub proof_id : Text
      pub calls : Calls
      pub storage : S
      pub stored :
          Kept services.has_storage
            (record {
              account_addr = request.account_addr;
              security_zone = request.security_zone;
              chain_id = request.chain_id;
              contract_addr = canonical;
              timestamp = now;
            })
            batch.cts
            proof_id
            calls
            storage
      pub posted :
          (store_cts_internally_retryable h t services.post log_context services.external_endpoint
            batch.cts request.chain_id request.security_zone 5 1000 p).result
          ≡ ok tt
