-- ===== src/Storage/Retry.antt =====
-- The retry loop of the storage manager (zk-verifier/src/storage/storage_manager.rs).
pub mod Settling
pub mod Laws
pub mod Limits
mod Tests
use zee_k_verifier.Prelude.{
  ℕ, zero, suc, ◌+◌, ◌*◌, ◌%◌, ◌^◌, min, Bool, true, false, not, List, [], ◌∷◌, ◌++◌, Option, none,
  some, Result, ok, err, ltb, if◌then◌else◌,
}
use zee_k_verifier.Config.{RetryConfig}
use zee_k_verifier.Storage.Errors.{StorageError, is_retryable, StorageResult}

pub data Kind : Type 0 where
  ct proof : Kind

-- What the loop does beside the operation: the retry counter, a sleep in milliseconds, and the
-- outcome counted once, `true` for "success" and `false` for "error".
pub data Effect : Type 0 where
  retried : Kind → Effect
  slept : ℕ → Effect
  persisted : Kind → Bool → Effect

-- The end of a run: its result, the world that the operation left, the effects in order.
pub record Run (W : Type 0) : Type 0 where
  pub result : StorageResult (Unit {0})
  pub world : W
  pub effects : List Effect

abbrev pub Operation : Type 0 → Type 0
Operation W = W → StorageResult (Unit {0}) × W

module _ {W : Type 0} (cfg : RetryConfig) (kind : Kind) (operation : Operation W) where
  -- After an error: give up on one that is not retryable, or when the attempts (a `u32`) pass the
  -- maximum; else go on with what is given.
  unfoldable pub after_error : StorageError → W → ℕ → List Effect → Option (Run W) → Option (Run W)
  after_error e w attempts effects again =
      let give_up : Option (Run W) =
        some
          (record { result = err e; world = w; effects = effects ++ persisted kind false ∷ [] }) in
      if not (is_retryable e)
      then give_up
      else if ltb cfg.max_retries attempts
      then give_up
      else again

  -- One round for each unit of fuel; `none` says that the fuel ran out. The delay is a `u64`.
  unfoldable pub retry_loop : ℕ → ℕ → ℕ → W → List Effect → Option (Run W)
  unfolding after_error
  retry_loop zero attempts delay_ms w effects = none
  retry_loop (suc fuel) attempts delay_ms w effects =
      let (outcome, w') = operation w in
      let attempts' = (attempts + 1) % 2 ^ 32 in
      let again =
        retry_loop fuel attempts' (min (delay_ms * 2 % 2 ^ 64) cfg.max_delay_ms) w'
          (effects ++ retried kind ∷ slept delay_ms ∷ []) in
      elim outcome [
        | ok _ ↦
            some
              (record { result = ok tt; world = w'; effects = effects ++ persisted kind true ∷ [] })
        | err e ↦ after_error e w' attempts' effects again
      ]

  -- The fuel is one round for the first attempt and one for each retry.
  unfoldable pub retry_operation : W → Option (Run W)
  unfolding retry_loop
  retry_operation w = retry_loop (suc cfg.max_retries) 0 cfg.initial_delay_ms w []
