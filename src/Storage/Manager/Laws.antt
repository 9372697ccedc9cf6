-- ===== src/Storage/Manager/Laws.antt =====
-- What storing a batch promises: everything of it has been taken by the provider before its proof
-- id is given out, under every order of the uploads, and storing ends.
use zee_k_verifier.Prelude.{
  ℕ, suc, ◌+◌, ◌*◌, ◌^◌, ◌<◌, ◌≤◌, List, [], ◌∷◌, map, length, some, ok, err, Bytes, Text, ◌≡◌,
  refl, ap, ◌∙◌, arith,
}
use zee_k_verifier.Config.{RetryConfig}
use zee_k_verifier.Extern.Codec.{Codec}
use zee_k_verifier.Storage.Errors.{StorageResult}
use zee_k_verifier.Storage.Objects.{StoredCiphertext, StoredProof}
use zee_k_verifier.Storage.Manager.{
  StorageProvider, Upload, CtData, Request, uploads, uploads_from, calculate_proof_id, proof_of,
}
use zee_k_verifier.Storage.Manager.Join.{Calls, start, reply_of, store_proof_and_cts}
use zee_k_verifier.Storage.Manager.Landing.{Called}
use zee_k_verifier.Storage.Manager.Ends.{try_join_all-ends, needed-start}

-- The provider has taken an object, and the bytes handed over read back as this.
pub record Stored {A : Type 0} (c : Codec A) (log : Calls) (u : Upload) (a : A) : Type 0 where
  pub payload : Bytes
  pub called : Called u payload (ok tt) log
  pub reads : c.deserialize payload ≡ ok a

module _ {W : Type 0} where
  reply_of-total :
      (proof_id : Text) (r : StorageResult (Unit {0})) (log : Calls) (w : W)
      → (result : StorageResult Text) × (reply_of proof_id (some (r, log, w))
          ≡ some (result, log, w))
  unfolding reply_of
  reply_of-total proof_id (ok u) log w = (ok proof_id, refl)
  reply_of-total proof_id (err why) log w = (err why, refl)

module _ (blake3_hex : Bytes → Text) (print : List Text → Text) (codec : Codec StoredCiphertext)
    (proof_codec : Codec StoredProof) (request : Request) (bytes : Bytes) where
  length-uploads_from :
      (index : ℕ) (cts : List CtData) (last : Upload)
      → length (uploads_from blake3_hex print codec proof_codec request bytes index cts last)
        ≡ length cts + 1
  unfolding uploads_from
  length-uploads_from index [] last = refl
  length-uploads_from index (c ∷ cts) last = omega (arith, length-uploads_from (suc index) cts last)

  module _ {W : Type 0} (cfg : RetryConfig) (provider : StorageProvider W) (cts : List CtData)
      (schedule : List ℕ) (w : W) where
    -- Where one more than the configured retries is below 2^32, storing ends, with a proof id or an
    -- error, on every schedule that has as many turns as there can be attempts: one and the configured retries for each ciphertext and for the proof.
    pub store_proof_and_cts_ends :
        cfg.max_retries + 1 < 2 ^ 32
        → (cfg.max_retries + 1) * (length cts + 1) ≤ length schedule
        → (result : StorageResult Text) × (log : Calls) × (w' : W) × (store_proof_and_cts cfg
              provider blake3_hex print codec proof_codec request bytes cts schedule w
            ≡ some (result, log, w'))
    unfolding store_proof_and_cts reply_of uploads
    store_proof_and_cts_ends small enough =
        let all = uploads blake3_hex print codec proof_codec request bytes cts in
        let (sum, fit) = needed-start cfg provider small all in
        let count =
          length-uploads_from 0 cts
            (proof_of blake3_hex print codec proof_codec request bytes cts) in
        let (r, log, w', e) =
          try_join_all-ends cfg provider small schedule (map (start cfg) all) w [] fit
            (grind arith) in
        let (result, replied) = reply_of-total (calculate_proof_id blake3_hex bytes) r log w' in
        (result, log, w', ap (reply_of (calculate_proof_id blake3_hex bytes)) e ∙ replied)
