-- ===== src/Storage/Manager/Landing.antt =====
-- What the log of a join says of its result, whatever the schedule.
use mathlib.Core.List.{append_assoc, append-nil}
use zee_k_verifier.Prelude.{
  ℕ, zero, suc, List, [], ◌∷◌, ◌++◌, some, ok, err, Bytes, All, ◌≡◌, refl, sym, ap, ◌∙◌, arith, inl,
  inr, ◌⊎◌, some-inj, err-ne-ok, subst, none-ne-some,
}
use zee_k_verifier.Config.{RetryConfig}
use zee_k_verifier.Storage.Errors.{StorageError, StorageResult}
use zee_k_verifier.Storage.Manager.{StorageProvider, Upload, attempt}
use zee_k_verifier.Storage.Manager.Join.{
  Job, Next, stored, failed, again, Call, Calls, pull, after_call, turn_with, turn, try_join_all,
}

-- A call of the log has this object, these bytes and this answer.
pub data Called (u : Upload) (bytes : Bytes) (outcome : StorageResult (Unit {0}))
    : Calls → Type 0 where
  here :
      {log : Calls}
      → Called u bytes outcome (record { upload = u; bytes = bytes; outcome = outcome } ∷ log)
  there : {c : Call} {log : Calls} → Called u bytes outcome log → Called u bytes outcome (c ∷ log)

-- An object has been handed to the provider, which took it.
pub record Landed (log : Calls) (u : Upload) : Type 0 where
  pub payload : Bytes
  pub serialized : u.bytes ≡ ok payload
  pub called : Called u payload (ok tt) log

module _ {u : Upload} {bytes : Bytes} {outcome : StorageResult (Unit {0})} where
  Called-left :
      (log more : Calls) → Called u bytes outcome log → Called u bytes outcome (log ++ more)
  Called-left [] more h = elim h [ ]
  Called-left (c ∷ log) more here = here
  Called-left (c ∷ log) more (there h) = there (Called-left log more h)

  Called-right :
      (log more : Calls) → Called u bytes outcome more → Called u bytes outcome (log ++ more)
  Called-right [] more h = h
  Called-right (c ∷ log) more h = there (Called-right log more h)

Landed-left : (log more : Calls) (u : Upload) → Landed log u → Landed (log ++ more) u
Landed-left log more u h = record {
  payload = h.payload;
  serialized = h.serialized;
  called = Called-left log more h.called;
}

Landed-right : (log more : Calls) (u : Upload) → Landed more u → Landed (log ++ more) u
Landed-right log more u h = record {
  payload = h.payload;
  serialized = h.serialized;
  called = Called-right log more h.called;
}

-- A property of every job, from one of the job pulled and the others.
pull-All :
    (P : Job → Type 0) (k : ℕ) (j : Job) (js : List Job)
    → P (pull k j js).0
    → All P (pull k j js).1
    → All P (j ∷ js)
unfolding pull
pull-All P k j [] p q = (p, tt)
pull-All P zero j (j' ∷ js) p q = (p, q)
pull-All P (suc k) j (j' ∷ js) p q = (q.0, pull-All P k j' js p q.1)

module _ (cfg : RetryConfig) {W : Type 0} (provider : StorageProvider W) where
  after_call-stored :
      (j : Job) (r : StorageResult (Unit {0})) → after_call cfg j r ≡ stored → r ≡ ok tt
  unfolding after_call
  after_call-stored j (ok _) h = refl
  after_call-stored j (err e) h = ground arith

  -- A turn that ends its job has handed the object over.
  turn-stored :
      (j : Job) (bytes : StorageResult Bytes) (w : W)
      → j.upload.bytes ≡ bytes
      → (turn_with cfg provider j bytes w).0 ≡ stored
      → Landed (turn_with cfg provider j bytes w).1 j.upload
  unfolding turn_with
  turn-stored j (err e) w same h = absurd (cc)
  turn-stored j (ok bytes) w same h =
      let taken = after_call-stored j (attempt provider j.upload bytes w).0 h in
      record {
        payload = bytes;
        serialized = same;
        called =
            subst
              (λ r.
                Called j.upload bytes (ok tt)
                  (record { upload = j.upload; bytes = bytes; outcome = r } ∷ []))
              (sym taken) here;
      }

  after_call-again :
      (j j' : Job) (r : StorageResult (Unit {0}))
      → after_call cfg j r ≡ again j'
      → j'.upload ≡ j.upload
  unfolding after_call
  after_call-again j j' (ok _) h = absurd (cc)
  after_call-again j j' (err e) h = ground arith

  turn-again :
      (j j' : Job) (bytes : StorageResult Bytes) (w : W)
      → (turn_with cfg provider j bytes w).0 ≡ again j'
      → j'.upload ≡ j.upload
  unfolding turn_with
  turn-again j j' (err e) w h = absurd (cc)
  turn-again j j' (ok bytes) w h = after_call-again j j' (attempt provider j.upload bytes w).0 h

  pub Next-cases :
      (n : Next)
      → (n ≡ stored) ⊎ ((e : StorageError) × (n ≡ failed e)) ⊎ ((j : Job) × (n ≡ again j))
  Next-cases stored = inl refl
  Next-cases (failed e) = inr (inl (e, refl))
  Next-cases (again j) = inr (inr (j, refl))

  module _ (k : ℕ) (ks : List ℕ) (j : Job) (js : List Job) (w : W) (log : Calls) where
    pub round_stored :
        (turn cfg provider (pull k j js).0 w).0 ≡ stored
        → try_join_all cfg provider (k ∷ ks) (j ∷ js) w log
          ≡ try_join_all cfg provider ks
              (pull k j js).1
              (turn cfg provider (pull k j js).0 w).2
              (log ++ (turn cfg provider (pull k j js).0 w).1)
    unfolding try_join_all
    round_stored e = rw (e, try_join_all) refl

    pub round_again :
        (j' : Job)
        → (turn cfg provider (pull k j js).0 w).0 ≡ again j'
        → try_join_all cfg provider (k ∷ ks) (j ∷ js) w log
          ≡ try_join_all cfg provider ks
              (j' ∷ (pull k j js).1)
              (turn cfg provider (pull k j js).0 w).2
              (log ++ (turn cfg provider (pull k j js).0 w).1)
    unfolding try_join_all
    round_again j' e = rw (e, try_join_all) refl

    pub round_failed :
        (why : StorageError)
        → (turn cfg provider (pull k j js).0 w).0 ≡ failed why
        → try_join_all cfg provider (k ∷ ks) (j ∷ js) w log
          ≡ some (
            err why,
            log ++ (turn cfg provider (pull k j js).0 w).1,
            (turn cfg provider (pull k j js).0 w).2,
          )
    unfolding try_join_all
    round_failed why e = rw (e, try_join_all) refl

  -- A join that succeeds has only added to the log, and every object of its jobs has landed.
  pub try_join_all-lands :
      (ks : List ℕ) (jobs : List Job) (w w' : W) (log log' : Calls)
      → try_join_all cfg provider ks jobs w log ≡ some (ok tt, log', w')
      → ((more : Calls) × (log' ≡ log ++ more)) × All (λ j. Landed log' j.upload) jobs
  unfolding try_join_all turn
  try_join_all-lands ks [] w w' log log' e =
      (([], sym (ap (λ r. r.1) (some-inj e)) ∙ sym (append-nil log)), tt)
  try_join_all-lands [] (j ∷ js) w w' log log' e = absurd (none-ne-some e)
  try_join_all-lands (k ∷ ks) (j ∷ js) w w' log log' e =
      let (job, others) = pull k j js in
      let (next, calls, w1) = turn cfg provider job w in
      elim (Next-cases next) [
        | inl done ↦
            let ((more, grown), rest) =
              try_join_all-lands ks others w1 w' (log ++ calls) log'
                (sym (round_stored k ks j js w log done) ∙ e) in
            let landed = turn-stored job job.upload.bytes w refl done in
            (
              (calls ++ more, grown ∙ append_assoc log calls more),
              pull-All (λ x. Landed log' x.upload) k j js
                  (subst (λ l. Landed l job.upload) (sym grown)
                    (Landed-left (log ++ calls) more job.upload
                      (Landed-right log calls job.upload landed)))
                  rest,
            )
        | inr (inl (why, stopped)) ↦ absurd (
            err-ne-ok
              (ap (λ r. r.0) (some-inj (sym (round_failed k ks j js w log why stopped) ∙ e))))
        | inr (inr (job', more_to_do)) ↦
            let ((more, grown), rest) =
              try_join_all-lands ks (job' ∷ others) w1 w' (log ++ calls) log'
                (sym (round_again k ks j js w log job' more_to_do) ∙ e) in
            (
              (calls ++ more, grown ∙ append_assoc log calls more),
              pull-All (λ x. Landed log' x.upload) k j js
                  (subst (Landed log') (turn-again job job' job.upload.bytes w more_to_do) rest.0)
                  rest.1,
            )
      ]
