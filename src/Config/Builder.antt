-- ===== src/Config/Builder.antt =====
-- The layers of a configuration (Builder of zk-verifier/src/config.rs). Merging them and reading the
-- result is the crate `config`'s.
use zee_k_verifier.Prelude.{
  ℕ, Bool, List, [], ◌∷◌, ◌++◌, Option, none, some, Result, Text, codes, unwrap_or, if◌then◌else◌,
}

-- A value set by default: a text or a number.
pub data Default : Type 0 where
  text : Text → Default
  number : ℕ → Default

-- A layer; later ones win.
pub data Source : Type 0 where
  default : Text → Default → Source
  toml : Text → Source
  file : Text → Source
  environment : Text → Text → Source

pub record Builder : Type 0 where
  pub config_path : Text
  pub baked : Option (Text × Text)

-- `Builder::new`, from the variable CONFIG_PATH.
unfoldable pub from_config_path : Option Text → Builder
unfolding codes
from_config_path var = record {
  config_path = unwrap_or (codes "/app/config/config.toml") var;
  baked = none;
}

unfoldable pub from_baked : Text → Text → Builder
from_baked base overlay = record { config_path = []; baked = some (base, overlay) }

abbrev pub defaults : List Source
unfolding codes
defaults =
    default (codes "server.bind_address") (text (codes "0.0.0.0"))
    ∷ default (codes "server.bind_port") (number 3001)
    ∷ default (codes "server.metrics_port") (number 9090)
    ∷ default (codes "keys.crs_path") (text (codes "./keys/crs"))
    ∷ default (codes "keys.pk_path") (text (codes "./keys/pk"))
    ∷ default (codes "keys.sk_path") (text (codes "./keys/sk"))
    ∷ default (codes "keys.signer_pk_path") (text (codes "./keys/signer_pk"))
    ∷ default (codes "keys.signer_pubkey_path") (text (codes "./keys/signer_public_key"))
    ∷ default (codes "store_cts.endpoint") (text (codes "http://localhost:9449"))
    ∷ []

-- The layers above the defaults: what is baked, or else the file if it is there and the environment.
unfoldable pub layers : Option (Text × Text) → Text → Bool → List Source
unfolding codes
layers (some (base, overlay)) path there = toml base ∷ toml overlay ∷ []
layers none path there =
    (if there then file path ∷ [] else []) ++ environment (codes "APP") (codes "__") ∷ []

-- `build`: `exists` is whether a path is there, `merge` the crate.
unfoldable pub build_config :
    {A : Type 0} → (List Source → Result Text A) → (Text → Bool) → Builder → Result Text A
unfolding layers
build_config merge exists b =
    merge (defaults ++ layers b.baked b.config_path (exists b.config_path))
