-- ===== src/Storage/Gcs/Tests.antt =====
-- Uploads to a bucket that answers with a fixed status.
use zee_k_verifier.Prelude.{
  text_eq, ℕ, [], none, some, ok, err, codes, ◌≡◌, refl, ◌↔◌, false, ◌+◌, without_0x, join,
}
use zee_k_verifier.Config.{StorageConfig, default_retry}
use zee_k_verifier.Storage.Errors.{StorageError, is_retryable, label, StorageResult}
use zee_k_verifier.Storage.Paths.{generate_object_key, sharded_path}
use zee_k_verifier.Extern.Bucket.{GaxError, failed, Client}
use zee_k_verifier.Storage.Gcs.{classify_error, error, upload, new, probe, started, from_config}
use zee_k_verifier.Storage.Gcs.Laws.{
  classify_error-is_retryable, upload-counts, Reads, Opens, probe_iff, from_config_iff, counted_as,
}

abbrev answer : ℕ → GaxError
answer code = record { http_status_code = some code; message = [] }

-- The world counts the requests.
abbrev bucket : ℕ → Client ℕ
bucket code = record {
  write_object = λ parent path payload metadata n. (failed (answer code), n + 1);
  read_object = λ parent key n. (some (answer code), n + 1);
}

abbrev config : StorageConfig
config = record {
  backend = codes "gcs";
  bucket = codes "inputs";
  upload_timeout_secs = 30;
  retry_config = default_retry;
  storage_endpoint = [];
}

abbrev refused : StorageResult (Unit {0})
refused = err (classify_error (answer 503))

classify_error-is_retryable_example : is_retryable (classify_error (answer 403)) ≡ false
classify_error-is_retryable_example = classify_error-is_retryable (answer 403)

upload-counts_example : error (label (classify_error (answer 503))) ≡ counted_as refused
unfolding upload generate_object_key sharded_path without_0x join codes
upload-counts_example =
    upload-counts (bucket 503) (started config) (codes "0xab12cd") [] none none none 0 1 refused
      (error (label (classify_error (answer 503)))) refl

probe_iff_example :
    (probe (bucket 404) (started config) 0 ≡ (ok tt, 1))
    ↔ Reads (bucket 404) (started config).parent 0 1
probe_iff_example = probe_iff (bucket 404) (started config) 0 1

from_config_iff_example :
    (from_config (ok (bucket 404)) label config 0 ≡ (ok (started config), 1))
    ↔ Opens (ok (bucket 404)) config 0 1 (started config)
from_config_iff_example = from_config_iff label config 0 1 (started config) (ok (bucket 404))

-- A bucket without the probed key opens; one that refuses the read does not.
opens : from_config (ok (bucket 404)) label config 0 ≡ (ok (started config), 1)
unfolding from_config new codes text_eq
opens = refl

stays_shut : (e : StorageError) × (from_config (ok (bucket 403)) label config 0 ≡ (err e, 1))
unfolding from_config new codes text_eq
stays_shut = (_, refl)
