-- ===== src/Verifier/Errors.antt =====
-- The errors of the verifier (zk-verifier/src/verifier/error.rs), and their texts.
use zee_k_verifier.Prelude.{ℕ, ◌++◌, Text, codes, decimal}
use zee_k_verifier.Signing.Signer.{
  SigningError, invalid_key, signing_failed, key_file_error, hex_decode_error,
}

pub data VerifierError : Type 0 where
  proof_verification_error signature_error hex_error tfhe_error : Text → VerifierError
  invalid_input generic_error : Text → VerifierError
  signing : SigningError → VerifierError

-- The texts of errors.
pub contract_length_message : ℕ → Text
contract_length_message n = codes "contract_addr must be 20 bytes, got " ++ decimal n

pub proof_message : Text → Text
proof_message e =
    codes "could not verify packed list: "
    ++ e
    ++ codes "; the proof metadata must end with contract_address (security_zone || account || "
    ++ codes "chain_id || contract), a proof from an older @cofhe/sdk is built without it: "
    ++ codes "upgrade the SDK"

pub expand_message : ℕ → Text → Text
expand_message index e = codes "unable to expand ct, index=" ++ decimal index ++ codes " err=" ++ e

pub missing_message : ℕ → Text
missing_message index = codes "could not get ct, index=" ++ decimal index

signing_shown : SigningError → Text
unfolding codes
signing_shown (invalid_key e) = codes "Invalid signing key: " ++ e
signing_shown (signing_failed e) = codes "Signing failed: " ++ e
signing_shown (key_file_error e) = codes "Failed to read key file: " ++ e
signing_shown (hex_decode_error e) = codes "Failed to decode hex: " ++ e

-- `Display` of an error.
pub shown : VerifierError → Text
unfolding codes signing_shown
shown (proof_verification_error e) = codes "Failed to verify ZK proof: " ++ e
shown (signature_error e) = codes "Invalid signature: " ++ e
shown (hex_error e) = codes "Invalid hex input: " ++ e
shown (tfhe_error e) = codes "TFHE error: " ++ e
shown (invalid_input e) = codes "Invalid input: " ++ e
shown (generic_error e) = codes "Generic error: " ++ e
shown (signing e) = codes "Signing error: " ++ signing_shown e
