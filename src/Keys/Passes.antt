-- ===== src/Keys/Passes.antt =====
-- That the tool writes what the boot gate asks for.
use zee_k_verifier.Prelude.{
  [], ◌∷◌, Result, ok, err, Bytes, Text, codes, ◌≡◌, refl, ap, >>=-eq-ok, map_err-eq-ok, map_err,
  arith,
}
use zee_k_verifier.Extern.Hex.{Hex}
use zee_k_verifier.Extern.Crypto.{Crypto, IsCrypto}
use zee_k_verifier.Extern.FileSystem.{FileSystem, IsFileSystem}
use zee_k_verifier.Extern.PublicKeys.{PublicKeys, IsPublicKeys}
use zee_k_verifier.Signing.Signer.{SigningError}
use zee_k_verifier.Keys.Match.{verify_signer_matches_pubkey}
use zee_k_verifier.Keys.Derive.{Ending, read_key, wrote, derived, derive}
use zee_k_verifier.Keys.Laws.{bound_address-eq}

module _ (h : Hex) (c : Crypto) (laws : IsCrypto c) (display : SigningError → Text)
    (points : PublicKeys c) (points_laws : IsPublicKeys points) {D : Type 0} (fs : FileSystem D)
    (disk : IsFileSystem fs) where
  -- The gate passes for a key whose compressed point the file holds.
  compressed_passes :
      (read : Text → Result Text Bytes) (key : c.SigningKey) (path : Text)
      → read path ≡ ok (points.to_compressed (c.verifying_key key))
      → verify_signer_matches_pubkey h c display points read key path ≡ ok tt
  unfolding verify_signer_matches_pubkey
  compressed_passes read key path there =
      rw
        (
          there,
          points_laws.from_sec1_bytes-to_compressed (c.verifying_key key),
          (points_laws.same_point_iff (c.verifying_key key) (c.verifying_key key)).1 refl,
          bound_address-eq h c laws display (codes "logging") key,
        )
        refl

  wrote_lem :
      (out_path : Text) (pubkey : Bytes) (put : Result Text (Unit {0}) × D) (exit : Ending) (d' : D)
      → wrote c points fs out_path pubkey put ≡ (exit, d')
      → exit.code ≡ 0
      → put ≡ (ok tt, d')
  unfolding wrote
  wrote_lem out_path pubkey (err e, d) exit d' done zero =
      absurd (omega (arith, zero, ap (λ (x : Ending × D). x.0.code) done))
  wrote_lem out_path pubkey (ok _, d) exit d' done zero = ap (λ (x : Ending × D). (ok tt, x.1)) done

  derived_lem :
      (key : Result Text c.SigningKey) (out_path : Text) (d d' : D) (exit : Ending)
      → derived c points fs key out_path d ≡ (exit, d')
      → exit.code ≡ 0
      → (signing_key : c.SigningKey) × (key ≡ ok signing_key)
        × (fs.write out_path (points.to_compressed (c.verifying_key signing_key)) d ≡ (ok tt, d'))
  unfolding derived
  derived_lem (err e) out_path d d' exit done zero =
      absurd (omega (arith, zero, ap (λ (x : Ending × D). x.0.code) done))
  derived_lem (ok key) out_path d d' exit done zero = (
    key,
    refl,
    wrote_lem out_path (points.to_compressed (c.verifying_key key)) _ exit d' done zero,
  )

  -- By the laws of the curve library and of the disk: where the tool exits with 0, the file of the
  -- private key was read and holds a signing key, and the boot gate on published keys passes for
  -- that key with the file that the tool wrote.
  pub derive_passes :
      (program priv_path out_path : Text) (d d' : D) (exit : Ending)
      → derive c points fs program (priv_path ∷ out_path ∷ []) d ≡ (exit, d')
      → exit.code ≡ 0
      → (priv_bytes : Bytes) × (signing_key : c.SigningKey) × (fs.read priv_path d ≡ ok priv_bytes)
        × (c.from_slice priv_bytes ≡ ok signing_key)
        × (verify_signer_matches_pubkey h c display points
              (λ path. fs.read path d')
              signing_key
              out_path
            ≡ ok tt)
  unfolding derive read_key
  derive_passes program priv_path out_path d d' exit done zero =
      let (key, keyed, wrote) =
        derived_lem (read_key c points fs priv_path d) out_path d d' exit done zero in
      let (priv_bytes, read, parsed) = >>=-eq-ok (map_err _ (fs.read priv_path d)) _ keyed in
      (
        priv_bytes,
        key,
        map_err-eq-ok _ _ read,
        map_err-eq-ok _ _ parsed,
        compressed_passes (λ path. fs.read path d') key out_path
            (disk.read-write out_path (points.to_compressed (c.verifying_key key)) d d' wrote),
      )
