-- ===== src/Storage/Manager/Join.antt =====
-- `try_join_all` over the uploads of a batch (zk-verifier/src/storage/storage_manager.rs): the
-- uploads are polled in any order, attempt by attempt, until all are stored or one has failed. A
-- schedule names the upload that makes the next attempt by its place among the unfinished ones.
use zee_k_verifier.Prelude.{
  ℕ, zero, suc, ◌+◌, ◌*◌, ◌%◌, ◌^◌, min, not, List, [], ◌∷◌, ◌++◌, map, Option, none, some, ok, err,
  Bytes, Text, ltb, if◌then◌else◌,
}
use zee_k_verifier.Config.{RetryConfig}
use zee_k_verifier.Extern.Codec.{Codec}
use zee_k_verifier.Storage.Errors.{StorageError, is_retryable, StorageResult}
use zee_k_verifier.Storage.Objects.{StoredCiphertext, StoredProof}
use zee_k_verifier.Storage.Manager.{
  StorageProvider, Upload, attempt, CtData, Request, uploads, calculate_proof_id,
}

-- An upload between two attempts.
pub record Job : Type 0 where
  pub upload : Upload
  pub attempts : ℕ
  pub delay_ms : ℕ

pub data Next : Type 0 where
  stored : Next
  failed : StorageError → Next
  again : Job → Next

-- A call of the provider: the object, the bytes handed over, the answer.
pub record Call : Type 0 where
  pub upload : Upload
  pub bytes : Bytes
  pub outcome : StorageResult (Unit {0})

-- The whole log, the last call last.
abbrev pub Calls : Type 0
Calls = List Call

-- The job at a place, and the others.
unfoldable pub pull : ℕ → Job → List Job → Job × List Job
pull k j [] = (j, [])
pull zero j (j' ∷ js) = (j, j' ∷ js)
pull (suc k) j (j' ∷ js) = let (x, others) = pull k j' js in (x, j ∷ others)

module _ (cfg : RetryConfig) where
  -- One round of the retry loop after its call.
  unfoldable pub after_call : Job → StorageResult (Unit {0}) → Next
  after_call j (ok _) = stored
  after_call j (err e) =
      let attempts = (j.attempts + 1) % 2 ^ 32 in
      if not (is_retryable e)
      then failed e
      else if ltb cfg.max_retries attempts
      then failed e
      else again (record {
        upload = j.upload;
        attempts = attempts;
        delay_ms = min (j.delay_ms * 2 % 2 ^ 64) cfg.max_delay_ms;
      })

  abbrev pub start : Upload → Job
  start u = record { upload = u; attempts = 0; delay_ms = cfg.initial_delay_ms }

  module _ {W : Type 0} (provider : StorageProvider W) where
    -- A turn of a job: one attempt, or none if its object could not be serialized.
    unfoldable pub turn_with : Job → StorageResult Bytes → W → Next × Calls × W
    unfolding after_call
    turn_with j (err e) w = (failed e, [], w)
    turn_with j (ok bytes) w =
        let (outcome, w') = attempt provider j.upload bytes w in
        (
          after_call j outcome,
          record { upload = j.upload; bytes = bytes; outcome = outcome } ∷ [],
          w',
        )

    unfoldable pub turn : Job → W → Next × Calls × W
    unfolding turn_with
    turn j w = turn_with j j.upload.bytes w

    -- `none` says that the schedule ended before the uploads did.
    unfoldable pub try_join_all :
        List ℕ → List Job → W → Calls → Option (StorageResult (Unit {0}) × Calls × W)
    unfolding turn pull
    try_join_all schedule [] w log = some (ok tt, log, w)
    try_join_all [] (j ∷ js) w log = none
    try_join_all (k ∷ ks) (j ∷ js) w log =
        let (job, others) = pull k j js in
        let (next, calls, w') = turn job w in
        elim next [
          | stored ↦ try_join_all ks others w' (log ++ calls)
          | failed e ↦ some (err e, log ++ calls, w')
          | again job' ↦ try_join_all ks (job' ∷ others) w' (log ++ calls)
        ]

module _ {W : Type 0} where
  -- A batch that is stored gives its proof id.
  unfoldable pub reply_of :
      Text → Option (StorageResult (Unit {0}) × Calls × W) → Option (StorageResult Text × Calls × W)
  reply_of proof_id none = none
  reply_of proof_id (some (ok _, log, w)) = some (ok proof_id, log, w)
  reply_of proof_id (some (err e, log, w)) = some (err e, log, w)

  unfoldable pub store_proof_and_cts :
      RetryConfig
      → StorageProvider W
      → (Bytes → Text)
      → (List Text → Text)
      → Codec StoredCiphertext
      → Codec StoredProof
      → Request
      → Bytes
      → List CtData
      → List ℕ
      → W
      → Option (StorageResult Text × Calls × W)
  unfolding reply_of try_join_all
  store_proof_and_cts cfg provider blake3_hex print codec proof_codec request bytes cts schedule w =
      let jobs = map (start cfg) (uploads blake3_hex print codec proof_codec request bytes cts) in
      reply_of (calculate_proof_id blake3_hex bytes) (try_join_all cfg provider schedule jobs w [])
