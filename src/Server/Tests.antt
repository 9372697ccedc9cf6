-- ===== src/Server/Tests.antt =====
-- Boots of the server, and its theorem at one of them.
use zee_k_verifier.Prelude.{
  ◌≡◌, ◌⊎◌, refl, List, [], Option, none, some, Result, ok, err, Text, codes, decimal, with_0x,
}
use zee_k_verifier.Config.{Config, StorageConfig}
use zee_k_verifier.Samples.HexCrate
use zee_k_verifier.Samples.Machine.{points, points-IsPublicKeys, client, machine, config}
use zee_k_verifier.Samples.CryptoCrate
use zee_k_verifier.Samples.CryptoCrate.{sample-IsCrypto}
use zee_k_verifier.Samples.TfheCrate
use zee_k_verifier.Storage.Gcs.{GcsStorage, from_config, new as gcs_new}
use zee_k_verifier.Keys.{KeyMaterial}
use zee_k_verifier.Server.{Step, AppState, fanout, run_server, new_state}
use zee_k_verifier.Server.Laws.{IsReady, Ends, all_steps, run_server-Boots}

abbrev keys : Option Text → KeyMaterial CryptoCrate.sample TfheCrate.sample
keys expected = record {
  crs = tt;
  pk = tt;
  sk = tt;
  signer_pk = 7;
  expected_signer_address = expected;
}

abbrev boot :
    Config
    → Option Text
    → Result Text (AppState HexCrate.sample CryptoCrate.sample TfheCrate.sample)
      × List Step
      × Unit {0}
boot c expected =
    run_server HexCrate.sample CryptoCrate.sample TfheCrate.sample points (λ e. []) (ok client)
      machine c (keys expected) tt

running : Unit {0}
unfolding run_server from_config gcs_new codes decimal CryptoCrate.from_slice
running = tt

-- The key file holds the point of the key: the boot serves, two verifies at once and one request.
served :
    (state : AppState HexCrate.sample CryptoCrate.sample TfheCrate.sample) × (boot config none
      ≡ (ok state, all_steps config fanout, tt))
unfolding running config all_steps
served = (_, refl)

gates : (served.0.verify_permits ≡ 2) × (served.0.admit_permits ≡ 1)
unfolding running served config all_steps
gates = (refl, refl)

-- Another address is published: nothing is done.
refused : (e : Text) × (boot config (some (codes "0x00")) ≡ (err e, [], tt))
unfolding running config CryptoCrate.keccak256 HexCrate.encode with_0x
refused = (_, refl)

run_server-Boots_example :
    ((e : Text) × (◌≡◌
        {A = Result Text (AppState HexCrate.sample CryptoCrate.sample TfheCrate.sample)}
        (ok served.0)
        (err e))
      × (all_steps config fanout ≡ []))
    ⊎ ((sc : StorageConfig) × (backend : GcsStorage) × IsReady HexCrate.sample CryptoCrate.sample
          TfheCrate.sample points
          (ok client)
          machine
          config
          (keys none)
          tt
          tt
          backend
          sc
        × Ends HexCrate.sample CryptoCrate.sample TfheCrate.sample machine config
            (new_state HexCrate.sample CryptoCrate.sample TfheCrate.sample machine config
              (keys none)
              sc
              backend)
            (ok served.0)
            (all_steps config fanout))
run_server-Boots_example =
    run_server-Boots HexCrate.sample CryptoCrate.sample TfheCrate.sample points (λ e. [])
      sample-IsCrypto points-IsPublicKeys (ok client) machine config (keys none) tt (ok served.0)
      (all_steps config fanout) tt served.1
