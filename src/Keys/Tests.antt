-- ===== src/Keys/Tests.antt =====
-- The keys of a directory that is one file.
use zee_k_verifier.Prelude.{
  ℕ, Bool, true, false, [], ◌∷◌, replicate, Option, none, some, Result, ok, err, Bytes, Text, codes,
  ◌≡◌, refl, ap, sym,
}
use zee_k_verifier.Extern.FileSystem.{FileSystem, IsFileSystem}
use zee_k_verifier.Extern.TfheKeys.{TfheKeys}
use zee_k_verifier.Samples.HexCrate
use zee_k_verifier.Samples.CryptoCrate
use zee_k_verifier.Samples.CryptoCrate.{sample-IsCrypto}
use zee_k_verifier.Samples.TfheCrate
use zee_k_verifier.Samples.Machine.{key_files, config, points, points-IsPublicKeys}
use zee_k_verifier.Keys.{
  compute_key_hash, load_signer_pk, deserialize_tfhe_artifacts, load_keys_from_config,
}
use zee_k_verifier.Keys.Match.{verify_signer_matches_pubkey}
use zee_k_verifier.Keys.Derive.{Ending, derive}
use zee_k_verifier.Keys.Passes.{derive_passes}

found : Option Bytes → Result Text Bytes
unfolding codes
found none = err (codes "not found")
found (some bytes) = ok bytes

is_there : Option Bytes → Bool
is_there none = false
is_there (some bytes) = true

abbrev one_file : FileSystem (Option Bytes)
one_file = record {
  exists = λ path d. is_there d;
  read = λ path d. found d;
  write = λ path bytes d. (ok tt, some bytes);
}

abbrev signer : Option Text → Option Bytes → Result Text ℕ × Option Bytes
unfolding codes
signer var d =
    load_signer_pk CryptoCrate.sample TfheCrate.sample key_files one_file var 9 (codes "signer_pk")
      d

-- A key that is there is read; one that is not is made where that is allowed.
signers :
    (signer none (some (7 ∷ [])) ≡ (ok 7, some (7 ∷ [])))
    × (signer (some (codes "TRUE")) none ≡ (ok 9, some (replicate 32 9)))
    × ((e : Text) × (signer (some (codes "1")) none ≡ (err e, none)))
unfolding load_signer_pk is_there found codes CryptoCrate.from_slice
signers = (refl, refl, (_, refl))

fingerprint :
    compute_key_hash HexCrate.sample (λ bytes. bytes) (171 ∷ 1 ∷ 2 ∷ 3 ∷ 4 ∷ []) ≡ codes "ab010203"
unfolding compute_key_hash HexCrate.encode codes
fingerprint = refl

-- A file that is no compressed key is read as a plain one.
abbrev plain_files : TfheKeys TfheCrate.sample
plain_files = record key_files { compressed_server_key_from = λ b limit. err [] }

fallback :
    deserialize_tfhe_artifacts TfheCrate.sample plain_files [] [] []
    ≡ ok (record { crs = tt; pk = tt; sk = tt })
unfolding deserialize_tfhe_artifacts
fallback = refl

-- Nothing is made where the artifacts cannot be read.
artifacts_first :
    (e : Text) × (load_keys_from_config CryptoCrate.sample TfheCrate.sample key_files one_file
        (λ s. s)
        (some (codes "true"))
        9
        config
        none
      ≡ (err e, none))
unfolding load_keys_from_config is_there found codes config
artifacts_first = (_, refl)

one_file-IsFileSystem : IsFileSystem one_file
unfolding found is_there
one_file-IsFileSystem = record {
  exists-write =
      λ path bytes d d' e. ap (λ (x : Result Text (Unit {0}) × Option Bytes). is_there x.1) (sym e);
  read-write =
      λ path bytes d d' e. ap (λ (x : Result Text (Unit {0}) × Option Bytes). found x.1) (sym e);
}

-- The tool reads the signer 7 and writes its point; other arguments are refused.
derives :
    (exit : Ending) × (derive CryptoCrate.sample points one_file
        (codes "tool")
        ([] ∷ [] ∷ [])
        (some (7 ∷ 1 ∷ []))
      ≡ (exit, some (7 ∷ [])))
unfolding derive found CryptoCrate.from_slice
derives = (_, refl)

usage : (derive CryptoCrate.sample points one_file (codes "tool") ([] ∷ []) none).0.code ≡ 2
unfolding derive
usage = refl

exits_0 : derives.0.code ≡ 0
unfolding derives derive found CryptoCrate.from_slice
exits_0 = refl

derive_passes_example :
    (priv_bytes : Bytes) × (signing_key : ℕ) × (one_file.read [] (some (7 ∷ 1 ∷ []))
      ≡ ok priv_bytes)
    × (CryptoCrate.sample.from_slice priv_bytes ≡ ok signing_key)
    × (verify_signer_matches_pubkey HexCrate.sample CryptoCrate.sample
          (λ e. [])
          points
          (λ path. one_file.read path (some (7 ∷ [])))
          signing_key
          []
        ≡ ok tt)
derive_passes_example =
    derive_passes HexCrate.sample CryptoCrate.sample sample-IsCrypto (λ e. []) points
      points-IsPublicKeys one_file one_file-IsFileSystem (codes "tool") [] [] (some (7 ∷ 1 ∷ []))
      (some (7 ∷ [])) derives.0 derives.1 exits_0
