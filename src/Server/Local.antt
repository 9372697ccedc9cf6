-- ===== src/Server/Local.antt =====
-- The local entry point (zk-verifier/src/main.rs): the configuration and the keys are read from the
-- disk, and the server is started on them. The directory is one whose keys may be made on the way.
use zee_k_verifier.Prelude.{[], List, Option, Result, ok, err, Text}
use zee_k_verifier.Config.{Config}
use zee_k_verifier.Config.Builder.{from_config_path, build_config, Source}
use zee_k_verifier.Extern.Hex.{Hex}
use zee_k_verifier.Extern.Crypto.{Crypto}
use zee_k_verifier.Extern.Tfhe.{Tfhe}
use zee_k_verifier.Extern.TfheKeys.{TfheKeys}
use zee_k_verifier.Extern.Bucket.{Client}
use zee_k_verifier.Extern.FileSystem.{FileSystem}
use zee_k_verifier.Extern.PublicKeys.{PublicKeys}
use zee_k_verifier.Signing.Signer.{SigningError}
use zee_k_verifier.Keys.{KeyMaterial, load_keys_from_config}
use zee_k_verifier.Server.{Machine, AppState, Step, run_server}

-- What the local boot takes from outside: the logger's start, two variables, the next random key.
pub record Locals (c : Crypto) : Type 0 where
  pub logger : Result Text (Unit {0})
  pub config_path : Option Text
  pub generate_keys : Option Text
  pub random : c.SigningKey
  pub merge : List Source → Result Text Config
  pub debug : Text → Text

module _ (h : Hex) (c : Crypto) (t : Tfhe) (k : TfheKeys t) (points : PublicKeys c)
    (shown : SigningError → Text) {D W : Type 0} (fs : FileSystem D) (locals : Locals c)
    (built : Result Text (Client W)) where
  -- The server on the keys that were read; the files that it reads are those of the directory as the
  -- keys have left it.
  unfoldable pub served_on :
      (D → Machine)
      → Config
      → Result Text (KeyMaterial c t) × D
      → W
      → Result Text (AppState h c t) × List Step × D × W
  unfolding run_server
  served_on machine config (err e, d) w = (err e, [], d, w)
  served_on machine config (ok keys, d) w =
      let (result, steps, w') = run_server h c t points shown built (machine d) config keys w in
      (result, steps, d, w')

  unfoldable pub configured :
      (D → Machine) → Result Text Config → D → W → Result Text (AppState h c t) × List Step × D × W
  unfolding served_on load_keys_from_config
  configured machine (err e) d w = (err e, [], d, w)
  configured machine (ok config) d w =
      served_on machine config
        (load_keys_from_config c t k fs locals.debug locals.generate_keys locals.random config d) w

  -- `main`
  unfoldable pub main : (D → Machine) → D → W → Result Text (AppState h c t) × List Step × D × W
  unfolding configured build_config from_config_path
  main machine d w = elim locals.logger [
    | err e ↦ (err e, [], d, w)
    | ok _ ↦
        configured machine
          (build_config locals.merge (λ path. fs.exists path d)
            (from_config_path locals.config_path))
          d w
  ]
