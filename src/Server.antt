-- ===== src/Server.antt =====
-- Booting the server (zk-verifier/src/server.rs, with AppState::new of api/mod.rs), built with the
-- features external-storage and store-cts and real keys. What a boot does to the outside is a list of steps; serving goes on until a listener fails.
pub mod Local
pub mod Laws
mod Tests
use zee_k_verifier.Prelude.{
  ℕ, Bool, true, false, List, [], ◌∷◌, ◌++◌, Option, none, some, Result, ok, err, map_err, ok_or,
  ◌>>=◌, Bytes, Text, codes, decimal,
}
use zee_k_verifier.Config.{Config, StorageConfig, RetryConfig, validate}
use zee_k_verifier.Extern.Hex.{Hex}
use zee_k_verifier.Extern.Crypto.{Crypto}
use zee_k_verifier.Extern.Tfhe.{Tfhe}
use zee_k_verifier.Extern.Bucket.{Client}
use zee_k_verifier.Extern.PublicKeys.{PublicKeys}
use zee_k_verifier.Signing.Signer.{SigningError, Signer}
use zee_k_verifier.Storage.Errors.{StorageResult, display}
use zee_k_verifier.Storage.Gcs.{GcsStorage, from_config}
use zee_k_verifier.Verifier.{Verifier}
use zee_k_verifier.Api.Gate.{verify_concurrency_from_env, max_inflight_from_env}
use zee_k_verifier.Keys.{KeyMaterial}
use zee_k_verifier.Keys.Match.{verify_signer_matches_address, verify_signer_matches_pubkey}

-- The recorder that is installed: the exposition's, alone or with that of the push pipeline.
pub data Recorder : Type 0 where
  prometheus fanout : Recorder

-- What a boot does, in order. A listener is asked for an address, and may refuse.
pub data Step : Type 0 where
  binds : Text → Step
  installs : Recorder → Step
  reports_up : Step
  publishes_error_counters : Step
  publishes_storage_error_counters : Step
  spawns_health : Text → ℕ → Step
  serves : Step

-- What the machine and the libraries answer: the files, the variables that size the gates (if they
-- parse), the cores, the listeners, the push pipeline, and the installation of a recorder.
pub record Machine : Type 0 where
  pub read : Text → Result Text Bytes
  pub verify_concurrency : Option ℕ
  pub max_inflight : Option ℕ
  pub cores : ℕ
  pub bind_api : Result Text (Unit {0})
  pub bind_metrics : Result Text (Unit {0})
  pub pipeline : Result Text (Unit {0})
  pub install : Recorder → Result Text (Unit {0})

-- The recorder for a configuration: without the pipeline if it cannot be built.
pub recorder : Bool → Result Text (Unit {0}) → Recorder
recorder false pipeline = prometheus
recorder true (ok _) = fanout
recorder true (err e) = prometheus

pub recorder_name : Recorder → Text
unfolding codes
recorder_name prometheus = codes "prometheus"
recorder_name fanout = codes "fanout"

-- `format!("{}:{}", address, port)`
abbrev pub address : Text → ℕ → Text
unfolding decimal
address host port = host ++ (b':' ∷ decimal port)

module _ (h : Hex) (c : Crypto) (t : Tfhe) where
  pub record AppState : Type 0 where
    pub zk_verifier : Verifier h c t
    pub server_key : t.ServerKey
    pub external_endpoint : Text
    pub external_storage : GcsStorage
    pub retry_config : RetryConfig
    pub verify_permits : ℕ
    pub admit_permits : ℕ

  -- `AppState::new`
  unfoldable pub new_state :
      Machine → Config → KeyMaterial c t → StorageConfig → GcsStorage → AppState
  unfolding verify_concurrency_from_env max_inflight_from_env
  new_state machine config keys storage_config backend = record {
    zk_verifier = record {
      pk = keys.pk;
      crs = keys.crs;
      signer = record { signing_key = keys.signer_pk };
    };
    server_key = keys.sk;
    external_endpoint = config.store_cts.endpoint;
    external_storage = backend;
    retry_config = storage_config.retry_config;
    verify_permits = verify_concurrency_from_env machine.verify_concurrency machine.cores;
    admit_permits = max_inflight_from_env machine.max_inflight;
  }

  -- From the installed recorder on.
  unfoldable pub published :
      Machine
      → Config
      → AppState
      → Result Text (Unit {0})
      → Recorder
      → Result Text AppState × List Step
  unfolding codes decimal recorder_name
  published machine config state (err e) which =
      (err (codes "install " ++ (recorder_name which ++ (codes " metrics recorder: " ++ e))), [])
  published machine config state (ok _) which =
      let metrics_addr = address config.server.bind_address config.server.metrics_port in
      let before =
        reports_up
        ∷ publishes_error_counters
        ∷ publishes_storage_error_counters
        ∷ spawns_health config.store_cts.endpoint config.health.probe_interval_secs
        ∷ binds metrics_addr
        ∷ [] in
      elim machine.bind_metrics [
        | err e ↦ (err e, before)
        | ok _ ↦ (ok state, before ++ serves ∷ [])
      ]

  -- From the bound API port on.
  unfoldable pub opened :
      Machine → Config → AppState → Result Text (Unit {0}) → Result Text AppState × List Step
  unfolding published recorder
  opened machine config state (err e) = (err e, [])
  opened machine config state (ok _) =
      let which = recorder config.metrics.push machine.pipeline in
      let (result, steps) = published machine config state (machine.install which) which in
      (result, installs which ∷ steps)

  module _ {W : Type 0} (built : Result Text (Client W)) where
    -- The start-up probe of the storage, and what follows it.
    unfoldable pub with_backend :
        Machine
        → Config
        → KeyMaterial c t
        → StorageConfig
        → StorageResult GcsStorage × W
        → Result Text AppState × List Step × W
    unfolding new_state opened decimal
    with_backend machine config keys storage_config (err e, w) = (err (display e), [], w)
    with_backend machine config keys storage_config (ok backend, w) =
        let state = new_state machine config keys storage_config backend in
        let (result, steps) = opened machine config state machine.bind_api in
        (result, binds (address config.server.bind_address config.server.bind_port) ∷ steps, w)

    unfoldable pub after_checks :
        Machine
        → Config
        → KeyMaterial c t
        → Result Text StorageConfig
        → W
        → Result Text AppState × List Step × W
    unfolding with_backend
    after_checks machine config keys (err e) w = (err e, [], w)
    after_checks machine config keys (ok storage_config) w =
        with_backend machine config keys storage_config (from_config built display storage_config w)

module _ (h : Hex) (c : Crypto) (t : Tfhe) (points : PublicKeys c)
    (shown : SigningError → Text) where
  -- The gate on the signer's identity: the published address, or else the published key file.
  unfoldable pub check_signer :
      Machine → Config → c.SigningKey → Option Text → Result Text (Unit {0})
  unfolding verify_signer_matches_address verify_signer_matches_pubkey
  check_signer machine config signer_pk (some addr) =
      verify_signer_matches_address h c shown signer_pk addr
  check_signer machine config signer_pk none =
      verify_signer_matches_pubkey h c shown points machine.read signer_pk
        config.keys.signer_pubkey_path

  -- What is checked before the storage is opened: the signer, and the storage section.
  unfoldable pub checked : Machine → Config → KeyMaterial c t → Result Text StorageConfig
  unfolding codes check_signer validate
  checked machine config keys = do
    matches ← check_signer machine config keys.signer_pk keys.expected_signer_address
    storage_config ←
        ok_or
          (codes "Storage configuration is required when 'external-storage' feature is enabled. "
            ++ codes "Please add a [storage] section to your config file.")
          config.storage
    valid ←
        map_err (λ e. codes "Invalid external storage configuration: " ++ e)
          (validate storage_config)
    ok storage_config

  unfoldable pub run_server :
      {W : Type 0}
      → Result Text (Client W)
      → Machine
      → Config
      → KeyMaterial c t
      → W
      → Result Text (AppState h c t) × List Step × W
  unfolding checked after_checks
  run_server built machine config keys w =
      after_checks h c t built machine config keys (checked machine config keys) w
