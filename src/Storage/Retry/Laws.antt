-- ===== src/Storage/Retry/Laws.antt =====
-- The retry loop against its specification: how a persist settles.
use mathlib.Core.List.{append_assoc}
use zee_k_verifier.Prelude.{
  ℕ, zero, suc, ◌+◌, ◌*◌, ◌%◌, ◌^◌, ◌<◌, ◌≤◌, min, true, false, List, [], ◌∷◌, ◌++◌, Option, some,
  ok, err, ◌≡◌, refl, ap, ◌∙◌, arith, Bool-cases, lt→ltb, le→ltb, Result-cases, inl, inr,
}
use zee_k_verifier.Config.{RetryConfig}
use zee_k_verifier.Storage.Errors.{StorageError, is_retryable, StorageResult}
use zee_k_verifier.Storage.Retry.Settling.{effects_of, Settles, success, refused, exhausted, again}
use zee_k_verifier.Storage.Retry.{
  Kind, Effect, retried, slept, persisted, Run, Operation, after_error, retry_loop, retry_operation,
}

module _ {W : Type 0} (cfg : RetryConfig) (operation : Operation W) where
  -- A run of the loop, described by how it settles.
  pub record Settled (kind : Kind) (left delay : ℕ) (w : W) (before : List Effect)
      (run : Option (Run W)) : Type 0 where
    pub result : StorageResult (Unit {0})
    pub world : W
    pub sleeps : List ℕ
    pub settles : Settles cfg operation left delay w result world sleeps
    pub ends :
        run
        ≡ some (record {
          result = result;
          world = world;
          effects = before ++ effects_of kind sleeps result;
        })

  module _ (kind : Kind) where
    given_up : StorageError → W → List Effect → Option (Run W)
    given_up e w effects =
        some (record { result = err e; world = w; effects = effects ++ persisted kind false ∷ [] })

    after_error_refused :
        (e : StorageError) (w : W) (attempts : ℕ) (effects : List Effect) (more : Option (Run W))
        → is_retryable e ≡ false
        → after_error cfg kind operation e w attempts effects more ≡ given_up e w effects
    unfolding after_error given_up
    after_error_refused e w attempts effects more h = rw h

    after_error_exhausted :
        (e : StorageError) (w : W) (attempts : ℕ) (effects : List Effect) (more : Option (Run W))
        → is_retryable e ≡ true
        → cfg.max_retries < attempts
        → after_error cfg kind operation e w attempts effects more ≡ given_up e w effects
    unfolding after_error given_up
    after_error_exhausted e w attempts effects more h past = rw (h, lt→ltb _ _ past)

    pub after_error_again :
        (e : StorageError) (w : W) (attempts : ℕ) (effects : List Effect) (more : Option (Run W))
        → is_retryable e ≡ true
        → attempts ≤ cfg.max_retries
        → after_error cfg kind operation e w attempts effects more ≡ more
    unfolding after_error
    after_error_again e w attempts effects more h within = rw (h, le→ltb _ _ within)

    module _ (fuel attempts delay : ℕ) (w : W) (before : List Effect) where
      round_ok :
          {u : Unit {0}}
          → (operation w).0 ≡ ok u
          → retry_loop cfg kind operation (suc fuel) attempts delay w before
            ≡ some (record {
              result = ok tt;
              world = (operation w).1;
              effects = before ++ persisted kind true ∷ [];
            })
      unfolding retry_loop
      round_ok e = rw (e, retry_loop)

      pub round_err :
          {why : StorageError}
          → (operation w).0 ≡ err why
          → retry_loop cfg kind operation (suc fuel) attempts delay w before
            ≡ after_error cfg kind operation why (operation w).1 ((attempts + 1) % 2 ^ 32) before (
                retry_loop cfg kind operation fuel
                  ((attempts + 1) % 2 ^ 32)
                  (min (delay * 2 % 2 ^ 64) cfg.max_delay_ms)
                  (operation w).1
                  (before ++ retried kind ∷ slept delay ∷ []))
      unfolding retry_loop
      round_err e = rw (e, retry_loop)

  outcome :
      (w : W) {r : StorageResult (Unit {0})}
      → (operation w).0 ≡ r
      → operation w ≡ (r, (operation w).1)
  outcome w e = ap (λ r. (r, (operation w).1)) e

  module _ (kind : Kind) (small : cfg.max_retries + 1 < 2 ^ 32) where
    -- The next number of attempts does not wrap.
    counted :
        (attempts left : ℕ)
        → attempts + left ≡ cfg.max_retries
        → (attempts + 1) % 2 ^ 32 ≡ attempts + 1
    counted attempts left sum = omega arith

    -- The rest of the loop after a sleep, if a retry is left.
    abbrev Later : ℕ → ℕ → ℕ → W → List Effect → Type 0
    Later zero attempts delay w before = Unit
    Later (suc left) attempts delay w before =
        Settled kind left (min (delay * 2 % 2 ^ 64) cfg.max_delay_ms) (operation w).1
          (before ++ retried kind ∷ slept delay ∷ [])
          (retry_loop cfg kind operation (suc left) ((attempts + 1) % 2 ^ 32)
            (min (delay * 2 % 2 ^ 64) cfg.max_delay_ms) (operation w).1
            (before ++ retried kind ∷ slept delay ∷ []))

    on_error :
        (left attempts delay : ℕ) (w : W) (before : List Effect)
        → attempts + left ≡ cfg.max_retries
        → Later left attempts delay w before
        → (why : StorageError) → (operation w).0 ≡ err why
        → is_retryable why ≡ true
        → Settled kind left delay w before
            (retry_loop cfg kind operation (suc left) attempts delay w before)
    unfolding given_up
    on_error zero attempts delay w before sum later why e retryable = record {
      result = err why;
      world = (operation w).1;
      sleeps = [];
      settles = exhausted (outcome w e) retryable refl;
      ends =
          round_err kind 0 attempts delay w before e
          ∙ after_error_exhausted kind why _ _ before _ retryable
              (omega (arith, counted attempts 0 sum));
    }
    on_error (suc left) attempts delay w before sum later why e retryable =
        let rest = later in
        record {
          result = rest.result;
          world = rest.world;
          sleeps = delay ∷ rest.sleeps;
          settles = again (outcome w e) retryable rest.settles;
          ends =
              round_err kind (suc left) attempts delay w before e
              ∙ after_error_again kind why _ _ before _ retryable
                  (omega (arith, counted attempts (suc left) sum))
              ∙ rest.ends
              ∙ rw (
                  append_assoc before (retried kind ∷ slept delay ∷ [])
                    (effects_of kind rest.sleeps rest.result));
        }

    settle :
        (left attempts delay : ℕ) (w : W) (before : List Effect)
        → attempts + left ≡ cfg.max_retries
        → Later left attempts delay w before
        → Settled kind left delay w before
            (retry_loop cfg kind operation (suc left) attempts delay w before)
    unfolding given_up
    settle left attempts delay w before sum later = elim (Result-cases (operation w).0) [
      | inl (u, e) ↦ record {
        result = ok tt;
        world = (operation w).1;
        sleeps = [];
        settles = success (outcome w e);
        ends = round_ok kind left attempts delay w before e;
      }
      | inr (why, e) ↦ elim (Bool-cases (is_retryable why)) [
        | inr final ↦ record {
          result = err why;
          world = (operation w).1;
          sleeps = [];
          settles = refused (outcome w e) final;
          ends =
              round_err kind left attempts delay w before e
              ∙ after_error_refused kind why _ _ before _ final;
        }
        | inl retryable ↦ on_error left attempts delay w before sum later why e retryable
      ]
    ]

    retry_loop-Settled :
        (left attempts delay : ℕ) (w : W) (before : List Effect)
        → attempts + left ≡ cfg.max_retries
        → Settled kind left delay w before
            (retry_loop cfg kind operation (suc left) attempts delay w before)
    retry_loop-Settled zero attempts delay w before sum = settle zero attempts delay w before sum tt
    retry_loop-Settled (suc left) attempts delay w before sum =
        settle (suc left) attempts delay w before sum (
          retry_loop-Settled left ((attempts + 1) % 2 ^ 32)
            (min (delay * 2 % 2 ^ 64) cfg.max_delay_ms) (operation w).1
            (before ++ retried kind ∷ slept delay ∷ [])
            (omega (arith, counted attempts (suc left) sum)))

    -- Unless the maximum is the greatest `u32`, a persist ends, and as it is specified: from the
    -- configured number of retries and first delay it settles, and its effects are one counted
    -- retry and one sleep for each delay of the settling, then its outcome, counted once.
    pub retry_operation-Settled :
        (w : W)
        → Settled kind cfg.max_retries cfg.initial_delay_ms w []
            (retry_operation cfg kind operation w)
    unfolding retry_operation
    retry_operation-Settled w =
        retry_loop-Settled cfg.max_retries 0 cfg.initial_delay_ms w [] (omega arith)
