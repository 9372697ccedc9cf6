-- ===== src/Storage/Retry/Tests.antt =====
-- Runs of the retry loop; the world counts the calls.
use zee_k_verifier.Prelude.{
  ◌≡◌, refl, ℕ, ◌+◌, ◌-◌, ◌^◌, ◌≤◌, [], ◌∷◌, List, none, some, ok, err, length, All, arith, true,
  false, ltb, if◌then◌else◌,
}
use zee_k_verifier.Config.{RetryConfig}
use zee_k_verifier.Storage.Errors.{
  StorageError, network, permission_denied, is_retryable, StorageResult,
}
use zee_k_verifier.Storage.Retry.{
  ct, proof, retried, slept, persisted, Operation, retry_loop, retry_operation,
}
use zee_k_verifier.Storage.Retry.Settling.{effects_of}
use zee_k_verifier.Storage.Retry.Laws.{Settled, retry_operation-Settled}
use zee_k_verifier.Storage.Retry.Limits.{retry_operation_bounds, retry_loop_forever}

abbrev config : RetryConfig
config = record { max_retries = 2; initial_delay_ms = 100; max_delay_ms = 150 }

-- The third call succeeds.
abbrev third : Operation ℕ
third n = (if ltb n 2 then err (network []) else ok tt, n + 1)

abbrev down : Operation ℕ
down n = (err (network []), n + 1)

abbrev denied : Operation ℕ
denied n = (err (permission_denied []), n + 1)

retry_tests :
    (retry_operation config ct third 0
      ≡ some (record {
        result = ok tt;
        world = 3;
        effects = retried ct ∷ slept 100 ∷ retried ct ∷ slept 150 ∷ persisted ct true ∷ [];
      }))
    × (retry_operation config proof down 0
        ≡ some (record {
          result = err (network []);
          world = 3;
          effects =
              retried proof ∷ slept 100 ∷ retried proof ∷ slept 150 ∷ persisted proof false ∷ [];
        }))
    × (retry_operation config ct denied 0
        ≡ some (record {
          result = err (permission_denied []);
          world = 1;
          effects = persisted ct false ∷ [];
        }))
unfolding retry_operation
retry_tests = (refl, refl, refl)

retry_operation-Settled_example :
    Settled config down proof 2 100 0 [] (retry_operation config proof down 0)
retry_operation-Settled_example = retry_operation-Settled config down proof (omega arith) 0

retry_operation_bounds_example :
    (result : StorageResult (Unit {0})) × (world : ℕ) × (sleeps : List ℕ) × (retry_operation config
        ct down 0
      ≡ some (record { result = result; world = world; effects = effects_of ct sleeps result }))
    × (length sleeps ≤ 2)
    × All (λ d. d ≤ 150) sleeps
    × ((e : StorageError) → result ≡ err e → is_retryable e ≡ true → length sleeps ≡ 2)
retry_operation_bounds_example = retry_operation_bounds config down ct 0 (omega arith) (omega arith)

abbrev endless : RetryConfig
endless = record { max_retries = 2 ^ 32 - 1; initial_delay_ms = 100; max_delay_ms = 150 }

retry_loop_forever_example : retry_loop endless ct down 9 0 100 0 [] ≡ none
retry_loop_forever_example =
    retry_loop_forever endless down ct 9 0 100 0 [] refl (λ w. (network [], refl, refl))
