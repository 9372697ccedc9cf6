-- ===== src/Api/StoreCts/Laws.antt =====
-- What the StoreCts loop does: it ends at the first success, or after the last retry.
use mathlib.Core.List.{append_assoc}
use zee_k_verifier.Prelude.{
  ℕ, zero, suc, ◌*◌, ◌%◌, ◌^◌, ◌<◌, ◌≤◌, true, false, List, [], ◌∷◌, ◌++◌, map, Result, ok, err,
  Text, Result-cases, ◌≡◌, refl, sym, ap, ◌∙◌, ◌⊎◌, inl, inr, arith, subst,
}
use zee_k_verifier.Extern.Hex.{Hex}
use zee_k_verifier.Extern.Tfhe.{Tfhe}
use zee_k_verifier.Verifier.{VerifiedCt}
use zee_k_verifier.Api.StoreCts.{
  Post, StoreCtsEffect, retried, slept, stored, StoreCtsRun, store_cts_loop, store_cts_internally,
  store_cts_internally_retryable, entry, failure_message,
}

-- The effects before an outcome: a counted retry and a sleep for each failure, each sleep twice as
-- long as the one before it.
abbrev pub retries : ℕ → ℕ → List StoreCtsEffect
retries zero delay_ms = []
retries (suc k) delay_ms = retried ∷ slept delay_ms ∷ retries k (delay_ms * 2 % 2 ^ 64)

module _ {W : Type 0} (attempt : W → Result Text (Unit {0}) × W) where
  -- The world after some attempts.
  abbrev pub after : ℕ → W → W
  after zero w = w
  after (suc k) w = after k (attempt w).1

  -- A run that failed so many times before its last attempt.
  pub record Told (failure : Text → Text) (left delay_ms : ℕ) (w : W) (before : List StoreCtsEffect)
      (run : StoreCtsRun W) : Type 0 where
    pub failures : ℕ
    pub within : failures ≤ left
    pub failed : (i : ℕ) → i < failures → (e : Text) × ((attempt (after i w)).0 ≡ err e)
    pub world : run.world ≡ after (suc failures) w
    pub ended :
        (((attempt (after failures w)).0 ≡ ok tt)
          × (run.result ≡ ok tt)
          × (run.effects ≡ before ++ (retries failures delay_ms ++ stored true ∷ [])))
        ⊎ ((failures ≡ left)
            × (e : Text) × ((attempt (after failures w)).0 ≡ err e)
            × (run.result ≡ err (failure e))
            × (run.effects ≡ before ++ (retries failures delay_ms ++ stored false ∷ [])))

  module _ (failure : Text → Text) where
    succeeded :
        (left delay_ms : ℕ) (w : W) (before : List StoreCtsEffect)
        → (attempt w).0 ≡ ok tt
        → Told failure left delay_ms w before
            (store_cts_loop attempt failure left delay_ms w before)
    unfolding store_cts_loop
    succeeded zero delay_ms w before e = record {
      failures = 0;
      within = omega arith;
      failed = λ i h. absurd (omega arith);
      world = rw (e, store_cts_loop) refl;
      ended = inl (e, rw (e, store_cts_loop) refl, rw (e, store_cts_loop) refl);
    }
    succeeded (suc left) delay_ms w before e = record {
      failures = 0;
      within = omega arith;
      failed = λ i h. absurd (omega arith);
      world = rw (e, store_cts_loop) refl;
      ended = inl (e, rw (e, store_cts_loop) refl, rw (e, store_cts_loop) refl);
    }

    gave_up :
        (delay_ms : ℕ) (w : W) (before : List StoreCtsEffect) (why : Text)
        → (attempt w).0 ≡ err why
        → Told failure 0 delay_ms w before (store_cts_loop attempt failure 0 delay_ms w before)
    unfolding store_cts_loop
    gave_up delay_ms w before why e = record {
      failures = 0;
      within = omega arith;
      failed = λ i h. absurd (omega arith);
      world = rw (e, store_cts_loop) refl;
      ended = inr (refl, why, e, rw (e, store_cts_loop) refl, rw (e, store_cts_loop) refl);
    }

    went_on :
        (left delay_ms : ℕ) (w : W) (before : List StoreCtsEffect) (why : Text)
        → (attempt w).0 ≡ err why
        → store_cts_loop attempt failure (suc left) delay_ms w before
          ≡ store_cts_loop attempt failure left
              (delay_ms * 2 % 2 ^ 64)
              (attempt w).1
              (before ++ retried ∷ slept delay_ms ∷ [])
    unfolding store_cts_loop
    went_on left delay_ms w before why e = rw (e, store_cts_loop) refl

    later :
        (left delay_ms : ℕ) (w : W) (before : List StoreCtsEffect) (why : Text)
        (run : StoreCtsRun W)
        → (attempt w).0 ≡ err why
        → Told failure left
            (delay_ms * 2 % 2 ^ 64)
            (attempt w).1
            (before ++ retried ∷ slept delay_ms ∷ [])
            run
        → Told failure (suc left) delay_ms w before run
    later left delay_ms w before why run e told = record {
      failures = suc told.failures;
      within = omega (arith, told.within);
      failed = each;
      world = told.world;
      ended = elim told.ended [
        | inl (done, result, effects) ↦ inl (done, result, effects ∙ shifted (stored true ∷ []))
        | inr (all, last, failing, result, effects) ↦
            inr (ap suc all, last, failing, result, effects ∙ shifted (stored false ∷ []))
      ];
    }
      where
        each : (i : ℕ) → i < suc told.failures → (e : Text) × ((attempt (after i w)).0 ≡ err e)
        each zero h = (why, e)
        each (suc i) h = told.failed i (omega arith)

        shifted :
            (end : List StoreCtsEffect)
            → (before ++ retried ∷ slept delay_ms ∷ [])
                ++ (retries told.failures (delay_ms * 2 % 2 ^ 64) ++ end)
              ≡ before ++ (retries (suc told.failures) delay_ms ++ end)
        shifted end = append_assoc before (retried ∷ slept delay_ms ∷ []) _

    store_cts_loop-Told :
        (left delay_ms : ℕ) (w : W) (before : List StoreCtsEffect)
        → Told failure left delay_ms w before
            (store_cts_loop attempt failure left delay_ms w before)
    store_cts_loop-Told zero delay_ms w before = elim (Result-cases (attempt w).0) [
      | inl (_, e) ↦ succeeded zero delay_ms w before e
      | inr (why, e) ↦ gave_up delay_ms w before why e
    ]
    store_cts_loop-Told (suc left) delay_ms w before = elim (Result-cases (attempt w).0) [
      | inl (_, e) ↦ succeeded (suc left) delay_ms w before e
      | inr (why, e) ↦ later left delay_ms w before why _ e (
          subst
            (Told failure left (delay_ms * 2 % 2 ^ 64) (attempt w).1
              (before ++ retried ∷ slept delay_ms ∷ []))
            (sym (went_on left delay_ms w before why e))
            (store_cts_loop-Told left (delay_ms * 2 % 2 ^ 64) (attempt w).1
              (before ++ retried ∷ slept delay_ms ∷ [])))
    ]

module _ (h : Hex) (t : Tfhe) {W : Type 0} (post : Post W) where
  -- Ciphertexts are posted until the endpoint takes them, at most once more than there are retries:
  -- every attempt before the last has failed, each was followed by a counted retry and a sleep twice
  -- as long as the one before, and the run succeeds if the last attempt does, and otherwise has used
  -- every retry; its outcome is counted once.
  pub store_cts_internally_retryable-Told :
      (log_context endpoint : Text) (cts : List VerifiedCt)
      (chain_id zone max_retries initial_delay_ms : ℕ) (w : W)
      → Told
          (store_cts_internally post endpoint chain_id (map (entry h t zone) cts))
          (failure_message max_retries log_context)
          max_retries
          initial_delay_ms
          w
          []
          (store_cts_internally_retryable h t post log_context endpoint cts chain_id zone
            max_retries initial_delay_ms w)
  unfolding store_cts_internally_retryable
  store_cts_internally_retryable-Told log_context endpoint cts chain_id zone max_retries delay_ms
        w =
      store_cts_loop-Told (store_cts_internally post endpoint chain_id (map (entry h t zone) cts))
        (failure_message max_retries log_context) max_retries delay_ms w []
