-- ===== src/Config.antt =====
-- The configuration that the service checks (zk-verifier/src/config.rs). Reading it from TOML and
-- the environment is the crate `config`'s.
pub mod Builder
pub mod Laws
mod Tests
use zee_k_verifier.Prelude.{
  ℕ, zero, suc, Bool, true, false, List, [], ◌∷◌, ◌++◌, Text, Option, none, some, Result, ok, err,
  map_err, ◌>>=◌, ◌>>◌, codes, ◌==◌, ltb, if◌then◌else◌,
}

pub record RetryConfig : Type 0 where
  pub max_retries : ℕ
  pub initial_delay_ms : ℕ
  pub max_delay_ms : ℕ

abbrev pub default_retry : RetryConfig
default_retry = record { max_retries = 5; initial_delay_ms = 100; max_delay_ms = 5000 }

pub validate_retry : RetryConfig → Result Text (Unit {0})
validate_retry r =
    if r.max_retries == 0
    then err (codes "max_retries must be greater than 0")
    else if ltb r.max_delay_ms r.initial_delay_ms
    then err (codes "max_delay_ms must be greater than initial_delay_ms")
    else ok tt

pub record StorageConfig : Type 0 where
  pub backend : Text
  pub bucket : Text
  pub upload_timeout_secs : ℕ
  pub retry_config : RetryConfig
  pub storage_endpoint : Text

abbrev default_backend : Text
unfolding codes
default_backend = codes "none"

abbrev default_endpoint : Text
unfolding codes
default_endpoint = codes "https://storage.googleapis.com"

abbrev default_upload_timeout : ℕ
default_upload_timeout = 30

is_empty : Text → Bool
is_empty [] = true
is_empty (_ ∷ _) = false

unfoldable pub validate : StorageConfig → Result Text (Unit {0})
unfolding is_empty validate_retry
validate s =
    if is_empty s.bucket
    then err (codes "GCS bucket name cannot be empty")
    else if s.upload_timeout_secs == 0
    then err (codes "upload_timeout_secs must be greater than 0")
    else map_err (λ e. codes "retry_config is invalid: " ++ e) (validate_retry s.retry_config)

pub record ServerConfig : Type 0 where
  pub bind_address : Text
  pub bind_port : ℕ
  pub metrics_port : ℕ

pub record KeyConfig : Type 0 where
  pub crs_path : Text
  pub pk_path : Text
  pub sk_path : Text
  pub signer_pk_path : Text
  pub signer_pubkey_path : Text

pub record MetricsConfig : Type 0 where
  pub push : Bool
  pub env : Option Text

pub record HealthConfig : Type 0 where
  pub probe_interval_secs : ℕ

abbrev pub default_health : HealthConfig
default_health = record { probe_interval_secs = 15 }

pub record StoreCtsConfig : Type 0 where
  pub endpoint : Text

pub record Config : Type 0 where
  pub server : ServerConfig
  pub keys : KeyConfig
  pub store_cts : StoreCtsConfig
  pub storage : Option StorageConfig
  pub metrics : MetricsConfig
  pub health : HealthConfig
