-- ===== src/Samples/Machine.antt =====
-- A machine whose ports, recorders and bucket all answer, and whose key file holds the key 7.
use zee_k_verifier.Prelude.{true, [], ◌∷◌, none, some, ok, codes, ◌==◌, ==_iff, refl}
use zee_k_verifier.Config.{Config, default_retry, default_health}
use zee_k_verifier.Extern.Bucket.{Client, sent}
use zee_k_verifier.Extern.PublicKeys.{PublicKeys, IsPublicKeys}
use zee_k_verifier.Extern.TfheKeys.{TfheKeys}
use zee_k_verifier.Samples.CryptoCrate
use zee_k_verifier.Samples.TfheCrate
use zee_k_verifier.Server.{Machine}

abbrev pub points : PublicKeys CryptoCrate.sample
points = record {
  from_sec1_bytes = CryptoCrate.from_slice;
  to_compressed = λ v. v ∷ [];
  same_point = λ a b. a == b;
}

pub points-IsPublicKeys : IsPublicKeys points
unfolding CryptoCrate.from_slice
points-IsPublicKeys = record { same_point_iff = ==_iff; from_sec1_bytes-to_compressed = λ v. refl }

-- Every file parses, to the one key that the sample crate has.
abbrev pub key_files : TfheKeys TfheCrate.sample
key_files = record {
  CompressedServerKey = Unit {0};
  crs_from = λ b limit. ok tt;
  public_key_from = λ b limit. ok tt;
  compressed_server_key_from = λ b limit. ok tt;
  server_key_from = λ b limit. ok tt;
  decompress = λ b. b;
}

-- A bucket that answers every read and write.
abbrev pub client : Client (Unit {0})
client = record {
  write_object = λ parent path bytes metadata w. (sent, w);
  read_object = λ parent path w. (none, w);
}

abbrev pub machine : Machine
machine = record {
  read = λ path. ok (7 ∷ []);
  verify_concurrency = none;
  max_inflight = some 0;
  cores = 40;
  bind_api = ok tt;
  bind_metrics = ok tt;
  pipeline = ok tt;
  install = λ which. ok tt;
}

unfoldable pub config : Config
unfolding codes
config = record {
  server = record { bind_address = codes "0.0.0.0"; bind_port = 3001; metrics_port = 9090 };
  keys = record {
    crs_path = [];
    pk_path = [];
    sk_path = [];
    signer_pk_path = codes "signer_pk";
    signer_pubkey_path = [];
  };
  store_cts = record { endpoint = codes "http://ct" };
  storage = some (record {
    backend = codes "gcs";
    bucket = codes "b";
    upload_timeout_secs = 30;
    retry_config = default_retry;
    storage_endpoint = [];
  });
  metrics = record { push = true; env = none };
  health = default_health;
}
