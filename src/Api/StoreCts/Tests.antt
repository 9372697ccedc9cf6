-- ===== src/Api/StoreCts/Tests.antt =====
-- An endpoint that answers 503 twice; the world counts the posts.
use zee_k_verifier.Prelude.{ℕ, ◌+◌, [], ◌∷◌, ltb, if◌then◌else◌, ok, true, ◌≡◌, refl}
use zee_k_verifier.Samples.HexCrate
use zee_k_verifier.Samples.TfheCrate
use zee_k_verifier.Api.StoreCts.{
  Post, response, store_cts_loop, store_cts_internally, store_cts_internally_retryable, retried,
  slept, stored, failure_message, answered,
}
use zee_k_verifier.Api.StoreCts.Laws.{Told, store_cts_internally_retryable-Told}

abbrev flaky : Post ℕ
flaky path body n = (response (if ltb n 2 then 503 else 200) [], n + 1)

flaky_test :
    store_cts_internally_retryable HexCrate.sample TfheCrate.sample flaky [] [] [] 1 0 5 1000 0
    ≡ record {
      result = ok tt;
      world = 3;
      effects = retried ∷ slept 1000 ∷ retried ∷ slept 2000 ∷ stored true ∷ [];
    }
unfolding store_cts_internally_retryable store_cts_loop store_cts_internally answered
flaky_test = refl

store_cts_internally_retryable-Told_example :
    Told
      (store_cts_internally flaky [] 1 [])
      (failure_message 5 [])
      5
      1000
      0
      []
      (store_cts_internally_retryable HexCrate.sample TfheCrate.sample flaky [] [] [] 1 0 5 1000 0)
store_cts_internally_retryable-Told_example =
    store_cts_internally_retryable-Told HexCrate.sample TfheCrate.sample flaky [] [] [] 1 0 5 1000 0
