-- ===== src/Config/Tests.antt =====
-- Validation at small inputs.
use zee_k_verifier.Prelude.{◌≡◌, refl, ◌↔◌, [], ◌∷◌, ok, err, codes}
use zee_k_verifier.Config.{StorageConfig, default_retry, validate, validate_retry}
use zee_k_verifier.Config.Laws.{IsUsable, validate_iff}

abbrev config : StorageConfig
config = record {
  backend = b'g' ∷ [];
  bucket = b'b' ∷ [];
  upload_timeout_secs = 30;
  retry_config = default_retry;
  storage_endpoint = [];
}

-- Equal delays pass, although the text of the error says "greater".
validate_tests :
    (validate config ≡ ok tt)
    × (validate_retry (record { max_retries = 1; initial_delay_ms = 7; max_delay_ms = 7 }) ≡ ok tt)
    × (validate (record config { upload_timeout_secs = 0 })
        ≡ err (codes "upload_timeout_secs must be greater than 0"))
unfolding validate
validate_tests = (refl, refl, refl)

validate_iff_example : (validate config ≡ ok tt) ↔ IsUsable config
validate_iff_example = validate_iff config
