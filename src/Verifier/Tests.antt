-- ===== src/Verifier/Tests.antt =====
-- The verifier on a small request, and its theorems there.
use zee_k_verifier.Prelude.{
  ℕ, ◌≡◌, refl, [], ◌∷◌, ◌++◌, Text, codes, Result, ok, err, replicate, without_0x, ◌⊎◌, arith,
}
use zee_k_verifier.Extern.Tfhe.{bool, uint8}
use zee_k_verifier.Samples.HexCrate
use zee_k_verifier.Samples.CryptoCrate
use zee_k_verifier.Samples.CryptoCrate.{sample-IsCrypto}
use zee_k_verifier.Samples.TfheCrate
use zee_k_verifier.Samples.TfheCrate.{Proven, sample-IsTfhe}
use zee_k_verifier.Signing.Signer.{signing_failed}
use zee_k_verifier.CtSigner.{sign_batch}
use zee_k_verifier.CtSigner.Binding.{Collision}
use zee_k_verifier.Verifier.{
  VerifiedBatch, Verifier, verified_ct, reconstruct_metadata, verify_and_expand,
  verify_and_sign_batch,
}
use zee_k_verifier.Verifier.Errors.{VerifierError, signing, invalid_input, contract_length_message}
use zee_k_verifier.Verifier.Expander.{serialize_index}
use zee_k_verifier.Verifier.Metadata.{SameRequest, reconstruct_metadata-injective}
use zee_k_verifier.Verifier.Attests.{Attests, verify_and_sign_batch-Attests}
use zee_k_verifier.Verifier.Binding.{entries, batch_digest_names_request}

running : Unit {0}
unfolding verify_and_sign_batch verify_and_expand verified_ct sign_batch reconstruct_metadata
    serialize_index without_0x codes HexCrate.decode CryptoCrate.keccak256 TfheCrate.check
    TfheCrate.discriminant
running = tt

abbrev verifier : Verifier HexCrate.sample CryptoCrate.sample TfheCrate.sample
verifier = record { pk = tt; crs = tt; signer = record { signing_key = 7 } }

abbrev account : Text
account = b'0' ∷ b'x' ∷ b'1' ∷ b'1' ∷ []

abbrev contract : Text
contract = replicate 40 b'a'

-- Other spellings of the two addresses.
abbrev bare_account : Text
bare_account = b'1' ∷ b'1' ∷ []

abbrev upper_contract : Text
upper_contract = b'0' ∷ b'x' ∷ replicate 40 b'A'

abbrev proven : Proven
proven = record {
  metadata = (1 ∷ 17 ∷ []) ++ (replicate 28 0 ++ 0 ∷ 0 ∷ 0 ∷ 5 ∷ []) ++ replicate 20 170;
  items = (uint8, 3 ∷ []) ∷ (bool, 1 ∷ []) ∷ [];
}

abbrev run :
    Proven
    → Text
    → Result VerifierError (VerifiedBatch HexCrate.sample CryptoCrate.sample TfheCrate.sample)
run p contract_addr =
    verify_and_sign_batch HexCrate.sample CryptoCrate.sample TfheCrate.sample verifier p account 1 5
      contract_addr

accepted :
    (b : VerifiedBatch HexCrate.sample CryptoCrate.sample TfheCrate.sample) × (run proven contract
      ≡ ok b)
unfolding running
accepted = (_, refl)

refused :
    (run proven (codes "0xaa") ≡ err (invalid_input (contract_length_message 1)))
    × (run (record proven { items = [] }) contract
        ≡ err (signing (signing_failed (codes "cannot sign an empty batch of ciphertexts"))))
unfolding running
refused = (refl, refl)

reconstruct_metadata-injective_example :
    SameRequest (1 ∷ []) (1 ∷ []) 2 2 5 5 (replicate 20 170) (replicate 20 170)
reconstruct_metadata-injective_example =
    reconstruct_metadata-injective (1 ∷ []) (1 ∷ []) 2 2 5 5 (replicate 20 170) (replicate 20 170)
      refl (omega arith) (omega arith) refl

verify_and_sign_batch-Attests_example :
    Attests HexCrate.sample CryptoCrate.sample TfheCrate.sample verifier proven account 1 5 contract
      accepted.0
verify_and_sign_batch-Attests_example =
    verify_and_sign_batch-Attests HexCrate.sample CryptoCrate.sample TfheCrate.sample
      sample-IsCrypto verifier proven account 1 5 contract accepted.0 accepted.1

respelled :
    (b : VerifiedBatch HexCrate.sample CryptoCrate.sample TfheCrate.sample) × (verify_and_sign_batch
        HexCrate.sample CryptoCrate.sample TfheCrate.sample verifier proven bare_account 1 5
        upper_contract
      ≡ ok b)
unfolding running
respelled = (_, refl)

batch_digest_names_request_example :
    ((HexCrate.decode (without_0x account) ≡ HexCrate.decode (without_0x bare_account))
      × (◌≡◌ {A = ℕ} 1 1)
      × (◌≡◌ {A = ℕ} 5 5)
      × (HexCrate.decode (without_0x contract) ≡ HexCrate.decode (without_0x upper_contract))
      × (entries accepted.0.cts ≡ entries respelled.0.cts))
    ⊎ Collision CryptoCrate.sample
unfolding accepted respelled
batch_digest_names_request_example =
    batch_digest_names_request HexCrate.sample CryptoCrate.sample TfheCrate.sample sample-IsCrypto
      sample-IsTfhe verifier verifier proven proven account bare_account 1 1 5 5 contract
      upper_contract accepted.0 respelled.0 (omega arith) (omega arith) accepted.1 respelled.1 refl
