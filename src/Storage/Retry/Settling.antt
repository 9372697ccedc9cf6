-- ===== src/Storage/Retry/Settling.antt =====
-- How a persist settles: the specification of the retry loop.
use zee_k_verifier.Prelude.{
  ℕ, suc, ◌*◌, ◌%◌, ◌^◌, ◌≤◌, min, Bool, true, false, List, [], ◌∷◌, ok, err, length, All, ◌≡◌,
  arith,
}
use zee_k_verifier.Config.{RetryConfig}
use zee_k_verifier.Storage.Errors.{StorageError, is_retryable, StorageResult}
use zee_k_verifier.Storage.Retry.{Kind, Effect, retried, slept, persisted, Operation}

abbrev pub is_ok : StorageResult (Unit {0}) → Bool
is_ok (ok _) = true
is_ok (err _) = false

-- The effects of a run that slept these times and ended so.
abbrev pub effects_of : Kind → List ℕ → StorageResult (Unit {0}) → List Effect
effects_of kind [] r = persisted kind (is_ok r) ∷ []
effects_of kind (d ∷ ds) r = retried kind ∷ slept d ∷ effects_of kind ds r

module _ {W : Type 0} (cfg : RetryConfig) (operation : Operation W) where
  -- With so many retries left and this delay next, a persist ends with a result in a world after
  -- some sleeps: at the first success, at the first error that is not retryable, or at an error
  -- when no retry is left; before every retry it sleeps, and the delay doubles up to the longest.
  pub data Settles : (left delay : ℕ) (w : W) → StorageResult (Unit {0}) → W → List ℕ → Type 0 where
    success :
        {left delay : ℕ} {w w' : W} → operation w ≡ (ok tt, w') → Settles left delay w (ok tt) w' []
    refused :
        {left delay : ℕ} {w w' : W} {e : StorageError}
        → operation w ≡ (err e, w')
        → is_retryable e ≡ false
        → Settles left delay w (err e) w' []
    exhausted :
        {left delay : ℕ} {w w' : W} {e : StorageError}
        → operation w ≡ (err e, w')
        → is_retryable e ≡ true
        → left ≡ 0
        → Settles left delay w (err e) w' []
    again :
        {left delay : ℕ} {w w1 w' : W} {e : StorageError} {r : StorageResult (Unit {0})}
        {sleeps : List ℕ}
        → operation w ≡ (err e, w1)
        → is_retryable e ≡ true
        → Settles left (min (delay * 2 % 2 ^ 64) cfg.max_delay_ms) w1 r w' sleeps
        → Settles (suc left) delay w r w' (delay ∷ sleeps)

  -- A persist sleeps at most once for each retry, and exactly so often if it ends in an error that
  -- could be retried.
  pub Settles-length :
      {left delay : ℕ} {w w' : W} {r : StorageResult (Unit {0})} {sleeps : List ℕ}
      → Settles left delay w r w' sleeps
      → (length sleeps ≤ left)
        × ((e : StorageError) → r ≡ err e → is_retryable e ≡ true → length sleeps ≡ left)
  Settles-length (success e) = (omega arith, λ why p. cc)
  Settles-length (refused e final) = (omega arith, λ why p retry. absurd (cc))
  Settles-length (exhausted e retry none_left) = (omega arith, λ why p retry'. omega arith)
  Settles-length (again e retry rest) =
      let (most, all) = Settles-length rest in
      (omega arith, λ why p retry'. omega (arith, all why p retry'))

  -- No sleep is longer than the configured maximum, if the first is not.
  pub Settles-capped :
      {left delay : ℕ} {w w' : W} {r : StorageResult (Unit {0})} {sleeps : List ℕ}
      → Settles left delay w r w' sleeps
      → delay ≤ cfg.max_delay_ms
      → All (λ d. d ≤ cfg.max_delay_ms) sleeps
  Settles-capped (success e) h = tt
  Settles-capped (refused e final) h = tt
  Settles-capped (exhausted e retry none_left) h = tt
  Settles-capped (again e retry rest) h = (h, Settles-capped rest (omega arith))
