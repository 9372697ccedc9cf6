-- ===== src/Keys/Derive.antt =====
-- The operator's tool (zk-verifier/scripts/derive_signer_pubkey.rs): the file that the boot gate
-- compares the signer with, from the file of the signer.
use zee_k_verifier.Prelude.{
  ℕ, List, [], ◌∷◌, ◌++◌, Result, ok, err, Bytes, Text, codes, decimal, length, map_err, ◌>>=◌,
}
use zee_k_verifier.Extern.Crypto.{Crypto}
use zee_k_verifier.Extern.FileSystem.{FileSystem}
use zee_k_verifier.Extern.PublicKeys.{PublicKeys}

-- The exit code, and the line that is printed.
pub record Ending : Type 0 where
  pub code : ℕ
  pub line : Text

module _ (c : Crypto) (points : PublicKeys c) {D : Type 0} (fs : FileSystem D) where
  -- `SigningKey::from_slice` of the file.
  unfoldable pub read_key : Text → D → Result Text c.SigningKey
  unfolding codes
  read_key priv_path d = do
    priv_bytes ←
        map_err (λ e. codes "error: reading private key '" ++ (priv_path ++ (codes "': " ++ e)))
          (fs.read priv_path d)
    map_err
        (λ e.
          codes "error: '"
          ++ (priv_path ++ (codes "' is not a valid 32-byte secp256k1 key: " ++ e)))
        (c.from_slice priv_bytes)

  unfoldable pub wrote : Text → Bytes → Result Text (Unit {0}) × D → Ending × D
  unfolding codes decimal
  wrote out_path pubkey (err e, d) = (
    record { code = 1; line = codes "error: writing pubkey '" ++ (out_path ++ (codes "': " ++ e)) },
    d,
  )
  wrote out_path pubkey (ok _, d) = (
    record {
      code = 0;
      line =
          codes "wrote "
          ++ (decimal (length pubkey)
              ++ (codes " bytes (compressed-SEC1 public key) to " ++ out_path));
    },
    d,
  )

  unfoldable pub derived : Result Text c.SigningKey → Text → D → Ending × D
  unfolding wrote
  derived (err e) out_path d = (record { code = 1; line = e }, d)
  derived (ok signing_key) out_path d =
      let pubkey = points.to_compressed (c.verifying_key signing_key) in
      wrote out_path pubkey (fs.write out_path pubkey d)

  -- `main`, on the arguments after the name of the program.
  unfoldable pub derive : (program : Text) → List Text → D → Ending × D
  unfolding codes read_key derived
  derive program (priv_path ∷ out_path ∷ []) d = derived (read_key priv_path d) out_path d
  derive program _ d = (
    record {
      code = 2;
      line = codes "usage: " ++ (program ++ codes " <private_key_path> <output_pubkey_path>");
    },
    d,
  )
