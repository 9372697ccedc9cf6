-- ===== src/CtSigner/Tests.antt =====
-- The commitments at small inputs.
use zee_k_verifier.Prelude.{
  ◌≡◌, refl, [], ◌∷◌, Bytes, replicate, false, true, arith, ok, some, ◌⊎◌, ◌≢◌, Bool,
}
use zee_k_verifier.Extern.Tfhe.{uint8}
use zee_k_verifier.Samples.CryptoCrate
use zee_k_verifier.Samples.CryptoCrate.{sample-IsCrypto}
use zee_k_verifier.Samples.TfheCrate
use zee_k_verifier.Signing.Message.{build_hash}
use zee_k_verifier.Signing.Signer.{Signer}
use zee_k_verifier.CtSigner.{batch_message, sign_batch}
use zee_k_verifier.CtSigner.Messages.{SameFields}
use zee_k_verifier.CtSigner.Binding.{
  Collision, ct_message_hash-binds, batch_digest-binds, sign_batch_sound,
}

abbrev hash : Bytes
hash = replicate 32 9

abbrev contract : Bytes
contract = replicate 20 170

ct_message_hash-binds_example :
    SameFields hash hash
      (TfheCrate.discriminant uint8)
      (TfheCrate.discriminant uint8)
      1
      1
      (5 ∷ [])
      (5 ∷ [])
      8453
      8453
      contract
      contract
    ⊎ Collision CryptoCrate.sample
ct_message_hash-binds_example =
    ct_message_hash-binds CryptoCrate.sample TfheCrate.sample hash hash uint8 uint8 1 1 (5 ∷ [])
      (5 ∷ []) 8453 8453 contract contract refl refl (omega arith) (omega arith) refl

batch_digest-binds_example : (hash ∷ [] ≡ hash ∷ []) ⊎ Collision CryptoCrate.sample
batch_digest-binds_example =
    batch_digest-binds CryptoCrate.sample (hash ∷ []) (hash ∷ []) (refl, tt) (refl, tt) refl

abbrev signer : Signer CryptoCrate.sample
signer = record { signing_key = 7 }

signed : sign_batch CryptoCrate.sample signer (hash ∷ []) ≡ ok ((false, 7), (true, false))
unfolding sign_batch
signed = refl

sign_batch_sound_example :
    (hash ∷ [] ≢ [])
    × (◌≡◌ {A = Bool} false false)
    × (CryptoCrate.recover
          (build_hash CryptoCrate.sample (batch_message (hash ∷ [])))
          (false, 7)
          (true, false)
        ≡ some 7)
sign_batch_sound_example =
    sign_batch_sound CryptoCrate.sample sample-IsCrypto signer (hash ∷ []) (false, 7) (true, false)
      signed
