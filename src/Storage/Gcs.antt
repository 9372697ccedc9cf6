-- ===== src/Storage/Gcs.antt =====
-- The Google Cloud Storage provider (zk-verifier/src/storage/gcs.rs).
pub mod Laws
mod Tests
use zee_k_verifier.Prelude.{
  ℕ, Bool, true, false, ◌&&◌, ◌||◌, List, [], ◌∷◌, ◌++◌, Option, none, some, Result, ok, err, Bytes,
  Text, codes, decimal, ◌==◌, leb, if◌then◌else◌, text_eq, length,
}
use zee_k_verifier.Config.{StorageConfig}
use zee_k_verifier.Extern.Bucket.{GaxError, StringMap, Reply, sent, elapsed, failed, Client}
use zee_k_verifier.Storage.Errors.{
  StorageError, configuration, network, permission_denied, not_found, generic, timeout, label,
  StorageResult,
}
use zee_k_verifier.Storage.Paths.{generate_object_key}

pub classify_status : Text → ℕ → StorageError
unfolding codes
classify_status msg code =
    if code == 401
    then permission_denied (codes "Authentication failed: " ++ msg)
    else if code == 403
    then permission_denied (codes "Permission denied: " ++ msg)
    else if code == 404
    then not_found msg
    else if code == 408
    then timeout (codes "GCS request") 0
    else if (code == 429) || (leb 500 code && leb code 599)
    then network (codes "GCS server error " ++ decimal code ++ codes ": " ++ msg)
    else generic (codes "GCS error " ++ decimal code ++ codes ": " ++ msg)

pub classify_code : Text → Option ℕ → StorageError
unfolding codes classify_status
classify_code msg none = network (codes "GCS transport error: " ++ msg)
classify_code msg (some code) = classify_status msg code

unfoldable pub classify_error : GaxError → StorageError
unfolding classify_code
classify_error e = classify_code e.message e.http_status_code

-- `e.http_status_code() == Some(404)`
abbrev pub is_missing : Option ℕ → Bool
is_missing none = false
is_missing (some code) = code == 404

-- What a finished upload counts under `storage_operations_total`.
pub data Counted : Type 0 where
  success : Counted
  error : (error_type : Text) → Counted

abbrev pub probe_key : Text
unfolding codes
probe_key = codes ".zk-verifier-startup-probe"

pub record GcsStorage : Type 0 where
  pub parent : Text
  pub bucket : Text
  pub upload_timeout : ℕ

module _ {W : Type 0} (client : Client W) where
  -- The end of an upload: its result, and what it counts.
  pub finish : GcsStorage → Text → Reply → StorageResult (Unit {0}) × Counted
  unfolding codes
  finish self object_path sent = (ok tt, success)
  finish self object_path (failed e) =
      let storage_error = classify_error e in (err storage_error, error (label storage_error))
  finish self object_path elapsed = (
    err (timeout (codes "upload to " ++ object_path) self.upload_timeout),
    error (codes "timeout"),
  )

  -- `none` is the panic of `generate_object_key`.
  unfoldable pub upload :
      GcsStorage
      → Text
      → Bytes
      → Option StringMap
      → Option Text
      → Option Text
      → W
      → Option (StorageResult (Unit {0}) × Counted × W)
  unfolding finish
  upload self key payload metadata base_path dynamic_path w =
      elim (generate_object_key key base_path dynamic_path) [
        | none ↦ none
        | some object_path ↦
            let (reply, w') = client.write_object self.parent object_path payload metadata w in
            let (result, counted) = finish self object_path reply in some (result, counted, w')
      ]

  -- The probe: an object that opens is drained, and 404 is the healthy answer.
  pub judge : Option GaxError → StorageResult (Unit {0})
  judge none = ok tt
  judge (some e) = if is_missing e.http_status_code then ok tt else err (classify_error e)

  unfoldable pub probe : GcsStorage → W → StorageResult (Unit {0}) × W
  unfolding judge
  probe self w = let (answer, w') = client.read_object self.parent probe_key w in (judge answer, w')

abbrev pub parent_of : StorageConfig → Text
unfolding codes
parent_of config = codes "projects/_/buckets/" ++ config.bucket

abbrev pub started : StorageConfig → GcsStorage
started config = record {
  parent = parent_of config;
  bucket = config.bucket;
  upload_timeout = config.upload_timeout_secs;
}

module _ {W : Type 0} (built : Result Text (Client W)) (display : StorageError → Text) where
  probe_failed : StorageConfig → GaxError → StorageResult GcsStorage
  unfolding codes
  probe_failed config e = err (
      configuration (
        codes "GCS startup probe failed for bucket '"
        ++ config.bucket
        ++ codes "': "
        ++ display (classify_error e)))

  -- `GcsStorage::new` after the client is built: the same read as the probe's.
  pub boot : StorageConfig → Option GaxError → StorageResult GcsStorage
  unfolding probe_failed
  boot config none = ok (started config)
  boot config (some e) =
      if is_missing e.http_status_code then ok (started config) else probe_failed config e

  unfoldable pub new : StorageConfig → W → StorageResult GcsStorage × W
  unfolding boot codes
  new config w = elim built [
    | err e ↦ (err (configuration (codes "Failed to build GCS Storage client: " ++ e)), w)
    | ok client ↦
        let (answer, w') = client.read_object (parent_of config) probe_key w in
        (boot config answer, w')
  ]

  -- `StorageFactory::from_config`
  unfoldable pub from_config : StorageConfig → W → StorageResult GcsStorage × W
  unfolding codes
  from_config config w =
      if text_eq config.backend (codes "gcs")
      then new config w
      else (err (configuration (codes "Unsupported storage backend: " ++ config.backend)), w)
