-- ===== src/Keys/Match.antt =====
-- The gate on the signer's identity (zk-verifier/src/signer/pubkey_match.rs).
use zee_k_verifier.Prelude.{
  ◌++◌, Result, ok, err, map_err, ◌>>=◌, Bytes, Text, codes, eq_ignore_ascii_case, if◌then◌else◌,
}
use zee_k_verifier.Extern.Hex.{Hex}
use zee_k_verifier.Extern.Crypto.{Crypto}
use zee_k_verifier.Extern.PublicKeys.{PublicKeys}
use zee_k_verifier.Signing.Signer.{SigningError, from_bytes, evm_address}

module _ (h : Hex) (c : Crypto) (display : SigningError → Text) where
  -- `Signer::from_bytes(&signing_key.to_bytes())`, for its address.
  unfoldable pub bound_address : Text → c.SigningKey → Result Text Text
  unfolding codes from_bytes evm_address
  bound_address purpose signing_key = do
    signer ←
        map_err
          (λ e. codes "constructing signer for address " ++ (purpose ++ (codes ": " ++ display e)))
          (from_bytes c (c.key_to_bytes signing_key))
    ok (evm_address c h signer)

  unfoldable pub verify_signer_matches_pubkey :
      PublicKeys c → (Text → Result Text Bytes) → c.SigningKey → Text → Result Text (Unit {0})
  unfolding codes bound_address
  verify_signer_matches_pubkey points read signing_key path = do
    bytes ←
        map_err (λ e. codes "reading published signer pubkey '" ++ (path ++ (codes "': " ++ e)))
          (read path)
    expected ←
        map_err
          (λ e.
            codes "parsing published signer pubkey '" ++ (path ++ (codes "' as secp256k1: " ++ e)))
          (points.from_sec1_bytes bytes)
    if points.same_point (c.verifying_key signing_key) expected
        then (do address ← bound_address (codes "logging") signing_key; ok tt)
        else err (
            codes "signer key / published pubkey mismatch: the loaded signing key does not "
            ++ (codes "correspond to the public key published at '"
                ++ (path
                    ++ (codes "'. The signing key (Secret Manager) and the published pubkey (GCS) "
                        ++ codes "must be rotated together."))))

  unfoldable pub verify_signer_matches_address : c.SigningKey → Text → Result Text (Unit {0})
  unfolding codes bound_address eq_ignore_ascii_case
  verify_signer_matches_address signing_key expected_address = do
    computed ← bound_address (codes "check") signing_key
    if eq_ignore_ascii_case computed expected_address
        then ok tt
        else err (
            codes "signer identity mismatch: the reconstructed signing key derives to "
            ++ (computed
                ++ (codes ", but the keygen published zk_signer_address "
                    ++ (expected_address
                        ++ (codes ". The partners' shares and the published identity must come "
                            ++ codes "from the same ceremony.")))))
