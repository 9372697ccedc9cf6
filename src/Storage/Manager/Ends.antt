-- ===== src/Storage/Manager/Ends.antt =====
-- A join ends on every schedule that is long enough.
use zee_k_verifier.Prelude.{
  ℕ, zero, suc, ◌+◌, ◌*◌, ◌-◌, ◌%◌, ◌^◌, ◌<◌, ◌≤◌, List, [], ◌∷◌, ◌++◌, map, length, some, ok, err,
  Bytes, All, ◌≡◌, refl, ◌∙◌, arith, inl, inr,
}
use zee_k_verifier.Config.{RetryConfig}
use zee_k_verifier.Storage.Errors.{StorageResult}
use zee_k_verifier.Storage.Manager.{StorageProvider, Upload, attempt}
use zee_k_verifier.Storage.Manager.Join.{
  Job, again, Calls, pull, after_call, start, turn_with, turn, try_join_all,
}
use zee_k_verifier.Storage.Manager.Landing.{Next-cases, round_stored, round_again, round_failed}

pull-All_inv :
    (P : Job → Type 0) (k : ℕ) (j : Job) (js : List Job)
    → All P (j ∷ js)
    → P (pull k j js).0 × All P (pull k j js).1
unfolding pull
pull-All_inv P k j [] h = (h.0, tt)
pull-All_inv P zero j (j' ∷ js) h = (h.0, h.1)
pull-All_inv P (suc k) j (j' ∷ js) h = let (p, q) = pull-All_inv P k j' js h.1 in (p, (h.0, q))

module _ (cfg : RetryConfig) where
  -- The attempts that a job has left, and that all have.
  abbrev pub budget : Job → ℕ
  budget j = suc cfg.max_retries - j.attempts

  abbrev pub needed : List Job → ℕ
  needed [] = 0
  needed (j ∷ js) = budget j + needed js

  pull-needed :
      (k : ℕ) (j : Job) (js : List Job)
      → budget (pull k j js).0 + needed (pull k j js).1 ≡ budget j + needed js
  unfolding pull
  pull-needed k j [] = refl
  pull-needed zero j (j' ∷ js) = refl
  pull-needed (suc k) j (j' ∷ js) = omega (arith, pull-needed k j' js)

  abbrev pub Within : Job → Type 0
  Within j = j.attempts ≤ cfg.max_retries

  module _ {W : Type 0} (provider : StorageProvider W) (small : cfg.max_retries + 1 < 2 ^ 32) where
    after_call-budget :
        (j j' : Job) (r : StorageResult (Unit {0}))
        → Within j
        → after_call cfg j r ≡ again j'
        → Within j' × (budget j' + 1 ≡ budget j)
    unfolding after_call
    after_call-budget j j' (ok _) within h = absurd (cc)
    after_call-budget j j' (err e) within h =
        let counted : (j.attempts + 1) % 2 ^ 32 ≡ j.attempts + 1 = omega arith in
        let next : (j'.attempts ≡ (j.attempts + 1) % 2 ^ 32)
            × ((j.attempts + 1) % 2 ^ 32 ≤ cfg.max_retries) =
          ground arith in
        (omega arith, omega arith)

    turn-budget :
        (j j' : Job) (bytes : StorageResult Bytes) (w : W)
        → Within j
        → (turn_with cfg provider j bytes w).0 ≡ again j'
        → Within j' × (budget j' + 1 ≡ budget j)
    unfolding turn_with
    turn-budget j j' (err e) w within h = absurd (cc)
    turn-budget j j' (ok bytes) w within h =
        after_call-budget j j' (attempt provider j.upload bytes w).0 within h

    -- A schedule that has a turn for every attempt of every job ends the join.
    pub try_join_all-ends :
        (ks : List ℕ) (jobs : List Job) (w : W) (log : Calls)
        → All Within jobs
        → needed jobs ≤ length ks
        → (result : StorageResult (Unit {0})) × (log' : Calls) × (w' : W) × (try_join_all cfg
              provider ks jobs w log
            ≡ some (result, log', w'))
    unfolding try_join_all turn
    try_join_all-ends ks [] w log within enough = (ok tt, log, w, refl)
    try_join_all-ends [] (j ∷ js) w log within enough = absurd (omega (arith, within.0))
    try_join_all-ends (k ∷ ks) (j ∷ js) w log within enough =
        let (job, others) = pull k j js in
        let (next, calls, w1) = turn cfg provider job w in
        let (fits, others_fit) = pull-All_inv Within k j js within in
        elim (Next-cases cfg provider next) [
          | inl done ↦
              let (r, log', w', e) =
                try_join_all-ends ks others w1 (log ++ calls) others_fit
                  (omega (arith, pull-needed k j js)) in
              (r, log', w', round_stored cfg provider k ks j js w log done ∙ e)
          | inr (inl (why, stopped)) ↦
              (err why, log ++ calls, w1, round_failed cfg provider k ks j js w log why stopped)
          | inr (inr (job', more)) ↦
              let (fits', less) = turn-budget job job' job.upload.bytes w fits more in
              let (r, log', w', e) =
                try_join_all-ends ks (job' ∷ others) w1 (log ++ calls) (fits', others_fit)
                  (omega (arith, pull-needed k j js)) in
              (r, log', w', round_again cfg provider k ks j js w log job' more ∙ e)
        ]

    pub needed-start :
        (us : List Upload)
        → (needed (map (start cfg) us) ≡ (cfg.max_retries + 1) * length us)
          × All Within (map (start cfg) us)
    needed-start [] = (omega arith, tt)
    needed-start (u ∷ us) = let (sum, fit) = needed-start us in (grind arith, (omega arith, fit))
