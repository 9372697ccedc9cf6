-- ===== src/Api/Persist/Laws.antt =====
-- When a batch counts as persisted.
use zee_k_verifier.Prelude.{
  Option, none, some, Result, ok, err, map_err, Text, none-ne-some, some-inj, ◌≡◌, ◌≢◌, refl, arith,
  err-ne-ok, subst,
}
use zee_k_verifier.Extern.Hex.{Hex}
use zee_k_verifier.Extern.Tfhe.{Tfhe}
use zee_k_verifier.Storage.Errors.{
  StorageError, configuration, network, permission_denied, not_found, serialization, generic,
  timeout, StorageResult,
}
use zee_k_verifier.Storage.Manager.Join.{Calls}
use zee_k_verifier.Api.StoreCts.{StoreCtsRun}
use zee_k_verifier.Api.Persist.{
  Failure, status_of, external_failure, store_cts_failure, persist_result, Services, Persisted,
  persisted,
}

pub status_of-ne : (e : StorageError) → status_of e ≢ 200
status_of-ne (configuration _) h = absurd (omega arith)
status_of-ne (network _) h = absurd (omega arith)
status_of-ne (permission_denied _) h = absurd (omega arith)
status_of-ne (not_found _) h = absurd (omega arith)
status_of-ne (serialization _) h = absurd (omega arith)
status_of-ne (generic _) h = absurd (omega arith)
status_of-ne (timeout _ _) h = absurd (omega arith)

-- A result that is no error, or an error under another status than 200.
abbrev pub Honest : {A : Type 0} → Result Failure A → Type 0
Honest (ok _) = Unit
Honest (err failure) = failure.0 ≢ 200

persist_result-Honest :
    (stored : StorageResult Text) (posted : Result Text (Unit {0}))
    → Honest (persist_result (map_err external_failure stored) (map_err store_cts_failure posted))
unfolding persist_result external_failure store_cts_failure
persist_result-Honest (err e) posted = status_of-ne e
persist_result-Honest (ok id) (err e) = λ h. absurd (omega arith)
persist_result-Honest (ok id) (ok u) = tt

persist_result-ok :
    (stored : StorageResult Text) (posted : Result Text (Unit {0}))
    → persist_result (map_err external_failure stored) (map_err store_cts_failure posted) ≡ ok tt
    → ((id : Text) × (stored ≡ ok id)) × (posted ≡ ok tt)
unfolding persist_result
persist_result-ok (err e) posted h = absurd (err-ne-ok h)
persist_result-ok (ok id) (err e) h = absurd (err-ne-ok h)
persist_result-ok (ok id) (ok u) h = ((id, refl), refl)

module _ (h : Hex) (t : Tfhe) {S P : Type 0} (services : Services S P) where
  -- What a persisted batch says of its two parts.
  pub record Parts (stored : Option (StorageResult Text × Calls × S)) (run : StoreCtsRun P)
      (p : Persisted S P) : Type 0 where
    pub storage_part : stored ≡ some (p.stored, p.calls, p.storage)
    pub posted_part : p.posted ≡ run
    pub honest : Honest p.result
    pub both : p.result ≡ ok tt → ((id : Text) × (p.stored ≡ ok id)) × (p.posted.result ≡ ok tt)

  pub persisted-Parts :
      (run : StoreCtsRun P) (stored : Option (StorageResult Text × Calls × S)) (p : Persisted S P)
      → persisted h t services run stored ≡ some p
      → Parts stored run p
  unfolding persisted
  persisted-Parts run none p e = absurd (none-ne-some e)
  persisted-Parts run (some (stored, calls, s)) p e =
      subst (Parts (some (stored, calls, s)) run) (some-inj e) (record {
        storage_part = refl;
        posted_part = refl;
        honest = persist_result-Honest stored run.result;
        both = persist_result-ok stored run.result;
      })
