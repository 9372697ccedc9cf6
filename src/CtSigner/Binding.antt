-- ===== src/CtSigner/Binding.antt =====
-- What equal digests mean: equal fields, or a collision of Keccak-256 that is handed over.
use zee_k_verifier.Prelude.{
  ℕ, List, [], ◌∷◌, length, ◌<◌, ◌^◌, Bytes, ◌≡◌, ◌≢◌, ◌⊎◌, inl, inr, Bool-cases, text_eq,
  text_eq_sound, text_eq_refl, ok, false, err-ne-ok, some,
}
use zee_k_verifier.Extern.Crypto.{Crypto, IsCrypto}
use zee_k_verifier.Extern.Tfhe.{Tfhe, FheTypes}
use zee_k_verifier.Signing.Message.{build, build_hash}
use zee_k_verifier.Signing.Signer.{Signer}
use zee_k_verifier.Signing.Signer.Laws.{sign_prehash_sound}
use zee_k_verifier.CtSigner.{ct_message_hash, batch_message, sign_batch}
use zee_k_verifier.CtSigner.Messages.{
  SameFields, build-ct_message-injective, AreHashes, build-batch_message-injective,
}

-- Two different byte strings with one Keccak-256 hash.
pub record Collision (c : Crypto) : Type 0 where
  pub left : Bytes
  pub right : Bytes
  pub differ : left ≢ right
  pub collide : c.keccak256 left ≡ c.keccak256 right

module _ (c : Crypto) where
  hash_binds : (a b : Bytes) → c.keccak256 a ≡ c.keccak256 b → (a ≡ b) ⊎ Collision c
  hash_binds a b e = elim (Bool-cases (text_eq a b)) [
    | inl same ↦ inl (text_eq_sound a b same)
    | inr other ↦ inr (record { left = a; right = b; differ = λ p. differs p other; collide = e })
  ]
    where
      differs : a ≡ b → text_eq a b ≡ false → ⊥
      differs p q = cc (text_eq_refl b)

  -- Two ciphertexts with one message hash agree in hash, type discriminant, security zone, account,
  -- chain id and contract, or two different messages with one Keccak-256 hash are at hand. The ciphertext
  -- hashes have one length and so have the contracts, the chain ids fit 32 bits, and the account
  -- may have any length.
  pub ct_message_hash-binds :
      (t : Tfhe) (ct_hash ct_hash' : Bytes) (ct_type ct_type' : FheTypes) (sz sz' : ℕ)
      (acc acc' : Bytes) (chain chain' : ℕ) (contract contract' : Bytes)
      → length ct_hash ≡ length ct_hash'
      → length contract ≡ length contract'
      → chain < 2 ^ 32
      → chain' < 2 ^ 32
      → ct_message_hash c t ct_hash ct_type sz acc chain contract
        ≡ ct_message_hash c t ct_hash' ct_type' sz' acc' chain' contract'
      → SameFields ct_hash ct_hash'
          (t.discriminant ct_type)
          (t.discriminant ct_type')
          sz
          sz'
          acc
          acc'
          chain
          chain'
          contract
          contract'
        ⊎ Collision c
  unfolding ct_message_hash build_hash build
  ct_message_hash-binds t h h' ty ty' sz sz' acc acc' n n' con con' lh lc ln ln' e =
      elim (hash_binds _ _ e) [
        | inl same ↦ inl (
            build-ct_message-injective h h' (t.discriminant ty) (t.discriminant ty') sz sz' acc acc'
              n n' con con' lh lc ln ln' same)
        | inr found ↦ inr found
      ]

  pub length-ct_message_hash :
      IsCrypto c
      → (t : Tfhe) (ct_hash : Bytes) (ct_type : FheTypes) (sz : ℕ) (acc : Bytes) (chain : ℕ)
        (contract : Bytes)
      → length (ct_message_hash c t ct_hash ct_type sz acc chain contract) ≡ 32
  unfolding ct_message_hash build_hash
  length-ct_message_hash laws t ct_hash ct_type sz acc chain contract = laws.length-keccak256 _

  -- Two batches of 32-byte hashes with one digest are the same list, or a collision is at hand.
  pub batch_digest-binds :
      (hs hs' : List Bytes)
      → AreHashes hs
      → AreHashes hs'
      → build_hash c (batch_message hs) ≡ build_hash c (batch_message hs')
      → (hs ≡ hs') ⊎ Collision c
  unfolding build_hash build
  batch_digest-binds hs hs' p p' e = elim (hash_binds _ _ e) [
    | inl same ↦ inl (build-batch_message-injective hs hs' p p' same)
    | inr found ↦ inr found
  ]

  -- By the laws of the curve library, a batch is signed only if it is not empty; the signature has a low S, and recovers from the
  -- batch digest to the key of the signer.
  pub sign_batch_sound :
      IsCrypto c
      → (signer : Signer c) (hashes : List Bytes) (sig : c.Signature) (recid : c.RecoveryId)
      → sign_batch c signer hashes ≡ ok (sig, recid)
      → (hashes ≢ [])
        × (c.is_high sig ≡ false)
        × (c.recover (build_hash c (batch_message hashes)) sig recid
            ≡ some (c.verifying_key signer.signing_key))
  unfolding sign_batch
  sign_batch_sound laws signer [] sig recid e = absurd (err-ne-ok e)
  sign_batch_sound laws signer (h ∷ hs) sig recid e =
      let (low, found) = sign_prehash_sound c laws signer _ sig recid e in (λ p. cc, low, found)
