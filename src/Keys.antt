-- ===== src/Keys.antt =====
-- The key material of a server and where it is read from (zk-verifier/src/keys.rs, lib.rs and
-- rust-common/src/keygen.rs). A panic is an error that carries its message.
pub mod Match
pub mod Derive
pub mod Laws
pub mod Passes
mod Tests
use zee_k_verifier.Prelude.{
  Bool, ◌++◌, Option, none, some, Result, ok, err, map_err, ◌>>=◌, Bytes, Text, codes, take,
  text_eq, to_ascii_lowercase, unwrap_or, if◌then◌else◌,
}
use zee_k_verifier.Config.{Config, KeyConfig}
use zee_k_verifier.Extern.Hex.{Hex}
use zee_k_verifier.Extern.Crypto.{Crypto}
use zee_k_verifier.Extern.Tfhe.{Tfhe}
use zee_k_verifier.Extern.TfheKeys.{TfheKeys}
use zee_k_verifier.Extern.FileSystem.{FileSystem}
use zee_k_verifier.Verifier.Expander.{safe_serialization_size_limit}

-- `.expect("...")`, with the error as `{:?}` prints it.
abbrev expect : {A : Type 0} → Text → Result Text A → Result Text A
unfolding codes
expect message tried = map_err (λ e. message ++ (codes ": " ++ e)) tried

module _ (h : Hex) (sha256 : Bytes → Bytes) where
  -- Eight digits that tell keys apart in a log.
  unfoldable pub compute_key_hash : Bytes → Text
  compute_key_hash bytes = h.encode (take 4 (sha256 bytes))

-- `std::env::var("GENERATE_KEYS")`, set to "true" in any case. No character outside ASCII has one of
-- these letters as its lower case.
unfoldable pub generate_keys_set : Option Text → Bool
unfolding codes text_eq to_ascii_lowercase
generate_keys_set var = text_eq (to_ascii_lowercase (unwrap_or (codes "false") var)) (codes "true")

unfoldable pub require_generate_keys_env : Option Text → Text → Text → Result Text (Unit {0})
unfolding codes generate_keys_set
require_generate_keys_env var key_type location =
    if generate_keys_set var
    then ok tt
    else err (
        key_type
        ++ (codes " not found in '"
            ++ (location
                ++ (codes "' and GENERATE_KEYS environment variable is not set to 'true'. "
                    ++ (codes "For security reasons, keys will not be auto-generated. "
                        ++ (codes "Either: \n1. Set GENERATE_KEYS=true to generate new keys "
                            ++ (codes "(development/first-time setup only), or\n"
                                ++ codes "2. Mount existing keys to the keys directory")))))))

module _ (t : Tfhe) (k : TfheKeys t) where
  pub record Artifacts : Type 0 where
    pub crs : t.CompactPkeCrs
    pub pk : t.CompactPublicKey
    pub sk : t.ServerKey

  abbrev versionized : {A : Type 0} → Result Text A → Result Text A
  unfolding codes
  versionized tried = map_err (λ e. codes "safe_deserialize failed: " ++ e) tried

  -- A compressed server key is expanded; a file that is none is read as a plain one.
  unfoldable pub server_key_or_plain :
      Result Text k.CompressedServerKey → Bytes → Result Text t.ServerKey
  unfolding codes
  server_key_or_plain (ok compressed) sk_bytes = ok (k.decompress compressed)
  server_key_or_plain (err e) sk_bytes =
      map_err (λ why. codes "deserialize server key: " ++ why)
        (versionized (k.server_key_from sk_bytes safe_serialization_size_limit))

  unfoldable pub deserialize_tfhe_artifacts : Bytes → Bytes → Bytes → Result Text Artifacts
  unfolding codes server_key_or_plain
  deserialize_tfhe_artifacts crs_bytes pk_bytes sk_bytes = do
    crs ←
        map_err (λ e. codes "deserialize CRS: " ++ e)
          (versionized (k.crs_from crs_bytes safe_serialization_size_limit))
    pk ←
        map_err (λ e. codes "deserialize public key: " ++ e)
          (versionized (k.public_key_from pk_bytes safe_serialization_size_limit))
    sk ←
        server_key_or_plain
          (versionized (k.compressed_server_key_from sk_bytes safe_serialization_size_limit))
          sk_bytes
    ok (record { crs = crs; pk = pk; sk = sk })

-- All the key material that a server needs to run.
pub record KeyMaterial (c : Crypto) (t : Tfhe) : Type 0 where
  pub crs : t.CompactPkeCrs
  pub pk : t.CompactPublicKey
  pub sk : t.ServerKey
  pub signer_pk : c.SigningKey
  pub expected_signer_address : Option Text

module _ (c : Crypto) (t : Tfhe) (k : TfheKeys t) {D : Type 0} (fs : FileSystem D) where
  -- The three reads come before the first parse. `debug` is how `{:?}` prints a text.
  unfoldable pub load_tfhe_artifacts :
      (debug : Text → Text) → KeyConfig → D → Result Text (Artifacts t k)
  unfolding codes deserialize_tfhe_artifacts
  load_tfhe_artifacts debug key_config d = do
    crs_bytes ← expect (codes "Failed to read CRS file") (fs.read key_config.crs_path d)
    pk_bytes ← expect (codes "Failed to read public key file") (fs.read key_config.pk_path d)
    sk_bytes ← expect (codes "Failed to read server key file") (fs.read key_config.sk_path d)
    expect (codes "Failed to deserialize TFHE artifacts")
        (map_err debug (deserialize_tfhe_artifacts t k crs_bytes pk_bytes sk_bytes))

  unfoldable pub load_pk : Text → D → Result Text c.SigningKey
  unfolding codes
  load_pk path d = do
    pk_bytes ← expect (codes "Failed to read public key file") (fs.read path d)
    expect (codes "Failed to deserialize public key") (c.from_slice pk_bytes)

  -- The end of a write: the key if the file could be written.
  unfoldable pub saved : c.SigningKey → Result Text (Unit {0}) × D → Result Text c.SigningKey × D
  unfolding codes
  saved pk (ok _, d) = (ok pk, d)
  saved pk (err e, d) = (err (codes "Failed to write public key file: " ++ e), d)

  -- A key that is not there is made, if the environment allows it, and saved.
  unfoldable pub generated :
      Result Text (Unit {0}) → c.SigningKey → Text → D → Result Text c.SigningKey × D
  unfolding saved
  generated (err why) random path d = (err why, d)
  generated (ok _) random path d = saved random (fs.write path (c.key_to_bytes random) d)

  -- `random` is the next key of the generator, `var` the variable GENERATE_KEYS.
  unfoldable pub load_signer_pk :
      Option Text → c.SigningKey → Text → D → Result Text c.SigningKey × D
  unfolding codes load_pk require_generate_keys_env generated
  load_signer_pk var random path d =
      if fs.exists path d
      then (load_pk path d, d)
      else generated (require_generate_keys_env var (codes "Signer key") path) random path d

  -- The pair of the artifacts and the signing key.
  unfoldable pub with_signer :
      Artifacts t k → Result Text c.SigningKey × D → Result Text (KeyMaterial c t) × D
  with_signer artifacts (err why, d) = (err why, d)
  with_signer artifacts (ok signer_pk, d) = (
    ok (record {
      crs = artifacts.crs;
      pk = artifacts.pk;
      sk = artifacts.sk;
      signer_pk = signer_pk;
      expected_signer_address = none;
    }),
    d,
  )

  unfoldable pub get_keys_from :
      Result Text (Artifacts t k)
      → Option Text
      → c.SigningKey
      → KeyConfig
      → D
      → Result Text (KeyMaterial c t) × D
  unfolding with_signer load_signer_pk
  get_keys_from (err why) var random key_config d = (err why, d)
  get_keys_from (ok artifacts) var random key_config d =
      with_signer artifacts (load_signer_pk var random key_config.signer_pk_path d)

  -- `get_keys`, and `load_keys_from_config` on the whole configuration.
  unfoldable pub load_keys_from_config :
      (debug : Text → Text)
      → Option Text
      → c.SigningKey
      → Config
      → D
      → Result Text (KeyMaterial c t) × D
  unfolding load_tfhe_artifacts get_keys_from
  load_keys_from_config debug var random config d =
      get_keys_from (load_tfhe_artifacts debug config.keys d) var random config.keys d
