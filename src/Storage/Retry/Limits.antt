-- ===== src/Storage/Retry/Limits.antt =====
-- The bounds of a persist, and the one configuration without any.
use zee_k_verifier.Prelude.{
  ℕ, zero, suc, ◌+◌, ◌*◌, ◌-◌, ◌%◌, ◌^◌, ◌<◌, ◌≤◌, min, true, List, [], ◌∷◌, ◌++◌, none, some, err,
  length, All, ◌≡◌, refl, ◌∙◌, arith,
}
use zee_k_verifier.Config.{RetryConfig}
use zee_k_verifier.Storage.Errors.{StorageError, is_retryable, StorageResult}
use zee_k_verifier.Storage.Retry.{
  Kind, Effect, retried, slept, Operation, retry_loop, retry_operation,
}
use zee_k_verifier.Storage.Retry.Settling.{effects_of, Settles-length, Settles-capped}
use zee_k_verifier.Storage.Retry.Laws.{retry_operation-Settled, round_err, after_error_again}

module _ {W : Type 0} (cfg : RetryConfig) (operation : Operation W) where
  -- For a maximum below the greatest `u32` and a first delay within the longest, a persist always
  -- ends; it sleeps at most once for each retry and never longer than the longest delay, it has
  -- used every retry if its error could be retried, and beside a counted retry before each sleep
  -- its only effect is its outcome, counted once at the end.
  pub retry_operation_bounds :
      (kind : Kind) (w : W)
      → cfg.max_retries + 1 < 2 ^ 32
      → cfg.initial_delay_ms ≤ cfg.max_delay_ms
      → (result : StorageResult (Unit {0})) × (world : W) × (sleeps : List ℕ) × (retry_operation cfg
            kind operation w
          ≡ some
              (record { result = result; world = world; effects = effects_of kind sleeps result }))
        × (length sleeps ≤ cfg.max_retries)
        × All (λ d. d ≤ cfg.max_delay_ms) sleeps
        × ((e : StorageError)
            → result ≡ err e
            → is_retryable e ≡ true
            → length sleeps ≡ cfg.max_retries)
  retry_operation_bounds kind w small ordered =
      let run = retry_operation-Settled cfg operation kind small w in
      let (most, all) = Settles-length cfg operation run.settles in
      (
        run.result,
        run.world,
        run.sleeps,
        run.ends,
        most,
        Settles-capped cfg operation run.settles ordered,
        all,
      )

  -- With the greatest `u32` for its maximum, an operation that always fails with an error that can
  -- be retried is tried forever, where integers wrap as they do in a release build: no amount of
  -- fuel ends the loop, since the count of attempts never passes the maximum.
  pub retry_loop_forever :
      (kind : Kind) (fuel attempts delay : ℕ) (w : W) (before : List Effect)
      → cfg.max_retries ≡ 2 ^ 32 - 1
      → ((w : W) → (e : StorageError) × ((operation w).0 ≡ err e) × (is_retryable e ≡ true))
      → retry_loop cfg kind operation fuel attempts delay w before ≡ none
  unfolding retry_loop
  retry_loop_forever kind zero attempts delay w before greatest fails = refl
  retry_loop_forever kind (suc fuel) attempts delay w before greatest fails =
      let (e, failed, retry) = fails w in
      round_err cfg operation kind fuel attempts delay w before failed
      ∙ after_error_again cfg operation kind e _ _ before _ retry (omega arith)
      ∙ retry_loop_forever kind fuel ((attempts + 1) % 2 ^ 32)
          (min (delay * 2 % 2 ^ 64) cfg.max_delay_ms) (operation w).1
          (before ++ retried kind ∷ slept delay ∷ []) greatest fails
