-- ===== src/Verifier/Binding.antt =====
-- A batch digest (zk-verifier/src/ct_signer.rs) serves one request and one list of ciphertexts.
use zee_k_verifier.Prelude.{
  ℕ, ◌+◌, ◌<◌, ◌^◌, List, [], ◌∷◌, map, length, Bytes, Text, ok, ◌≡◌, ◌≢◌, refl, sym, ap, ◌∙◌,
  arith, without_0x, inl, inr, ◌⊎◌,
}
use zee_k_verifier.Extern.Hex.{Hex}
use zee_k_verifier.Extern.Crypto.{Crypto, IsCrypto}
use zee_k_verifier.Extern.Tfhe.{Tfhe, IsTfhe, FheTypes}
use zee_k_verifier.Signing.Message.{build_hash}
use zee_k_verifier.CtSigner.{batch_message}
use zee_k_verifier.CtSigner.Messages.{AreHashes}
use zee_k_verifier.CtSigner.Binding.{
  Collision, ct_message_hash-binds, batch_digest-binds, length-ct_message_hash,
}
use zee_k_verifier.Verifier.{VerifiedCt, VerifiedBatch, Verifier, verify_and_sign_batch}
use zee_k_verifier.Verifier.Expander.{serialize_index-IsServed}
use zee_k_verifier.Verifier.Metadata.{SameRequest}
use zee_k_verifier.Verifier.Attests.{
  IsCommitted, AreCommitted, message_hashes, verify_and_sign_batch-Attests,
}

-- What a consumer reads of a ciphertext: its hash and its type.
abbrev pub entries : List VerifiedCt → List (Bytes × FheTypes)
entries = map (λ ct. (ct.ct_hash, ct.ct_type))

-- Two lists of committed items, each for a request of its own.
module _ (h : Hex) (c : Crypto) (t : Tfhe) (laws : IsCrypto c) (types : IsTfhe t)
    (expander expander' : t.Expander) (account account' : Bytes) (zone zone' chain chain' : ℕ)
    (contract contract' : Bytes) (lc : length contract ≡ length contract') (ln : chain < 2 ^ 32)
    (ln' : chain' < 2 ^ 32) where
  abbrev Request : Type 0
  Request = SameRequest account account' zone zone' chain chain' contract contract'

  item_binds :
      (i : ℕ) (ct ct' : VerifiedCt)
      → IsCommitted h c t expander account zone chain contract i ct
      → IsCommitted h c t expander' account' zone' chain' contract' i ct'
      → ct.message_hash ≡ ct'.message_hash
      → ((ct.ct_hash ≡ ct'.ct_hash) × (ct.ct_type ≡ ct'.ct_type) × Request) ⊎ Collision c
  item_binds i ct ct' one two e =
      elim (ct_message_hash-binds c t ct.ct_hash ct'.ct_hash ct.ct_type ct'.ct_type zone zone'
        account account' chain chain' contract contract'
        (ap length one.hashed
          ∙ laws.length-keccak256 ct.ct_bytes
          ∙ sym (laws.length-keccak256 ct'.ct_bytes)
          ∙ sym (ap length two.hashed))
        lc ln ln' (sym one.message ∙ e ∙ two.message)) [
          | inl fields ↦ inl (
            fields.ct_hash_eq,
            types.discriminant-injective ct.ct_type ct'.ct_type
                (serialize_index-IsServed t expander i ct.ct_type ct.ct_bytes one.expanded)
                (serialize_index-IsServed t expander' i ct'.ct_type ct'.ct_bytes two.expanded)
                fields.ct_type_eq,
            record {
              account_eq = fields.acc_eq;
              zone_eq = fields.sz_eq;
              chain_eq = fields.chain_eq;
              contract_eq = fields.contract_eq;
            },
          )
          | inr found ↦ inr found
        ]

  items_bind :
      (i : ℕ) (cts cts' : List VerifiedCt)
      → AreCommitted h c t expander account zone chain contract i cts
      → AreCommitted h c t expander' account' zone' chain' contract' i cts'
      → message_hashes h c t cts ≡ message_hashes h c t cts'
      → (entries cts ≡ entries cts') ⊎ Collision c
  items_bind i [] [] a a' e = inl refl
  items_bind i [] (ct' ∷ cts') a a' e = absurd (cc)
  items_bind i (ct ∷ cts) [] a a' e = absurd (cc)
  items_bind i (ct ∷ cts) (ct' ∷ cts') a a' e = elim (item_binds i ct ct' a.0 a'.0 (cc)) [
    | inl (hashes, kinds, _) ↦ elim (items_bind (i + 1) cts cts' a.1 a'.1 (cc)) [
      | inl rest ↦ inl (ground (arith))
      | inr found ↦ inr found
    ]
    | inr found ↦ inr found
  ]

  first_binds :
      (cts cts' : List VerifiedCt)
      → cts ≢ []
      → AreCommitted h c t expander account zone chain contract 0 cts
      → AreCommitted h c t expander' account' zone' chain' contract' 0 cts'
      → message_hashes h c t cts ≡ message_hashes h c t cts'
      → Request ⊎ Collision c
  first_binds [] cts' some_item a a' e = absurd (some_item refl)
  first_binds (ct ∷ cts) [] some_item a a' e = absurd (cc)
  first_binds (ct ∷ cts) (ct' ∷ cts') some_item a a' e = elim (item_binds 0 ct ct' a.0 a'.0 (cc)) [
    | inl (_, _, same) ↦ inl same
    | inr found ↦ inr found
  ]

module _ (h : Hex) (c : Crypto) (t : Tfhe) where
  -- The digest that the signature of a batch covers.
  abbrev pub batch_digest : VerifiedBatch h c t → Bytes
  batch_digest batch = build_hash c (batch_message (message_hashes h c t batch.cts))

  AreCommitted-AreHashes :
      IsCrypto c
      → (expander : t.Expander) (account : Bytes) (zone chain : ℕ) (contract : Bytes) (i : ℕ)
        (cts : List VerifiedCt)
      → AreCommitted h c t expander account zone chain contract i cts
      → AreHashes (message_hashes h c t cts)
  AreCommitted-AreHashes laws expander account zone chain contract i [] a = tt
  AreCommitted-AreHashes laws expander account zone chain contract i (ct ∷ cts) a = (
    ap length a.0.message
        ∙ length-ct_message_hash c laws t ct.ct_hash ct.ct_type zone account chain contract,
    AreCommitted-AreHashes laws expander account zone chain contract (i + 1) cts a.1,
  )

  -- By the laws of the hash and of the type discriminants: two batches signed over one digest, by
  -- any two verifiers and for any proofs, were for the same decoded account and contract, the same
  -- zone and 32-bit chain id, and list the same hashes and types in the same order; or two byte
  -- strings with one Keccak-256 hash are at hand.
  pub batch_digest_names_request :
      IsCrypto c
      → IsTfhe t
      → (v v' : Verifier h c t) (proven proven' : t.ProvenCompactCiphertextList)
        (account account' : Text) (zone zone' chain chain' : ℕ) (contract contract' : Text)
        (batch batch' : VerifiedBatch h c t)
      → chain < 2 ^ 32
      → chain' < 2 ^ 32
      → verify_and_sign_batch h c t v proven account zone chain contract ≡ ok batch
      → verify_and_sign_batch h c t v' proven' account' zone' chain' contract' ≡ ok batch'
      → batch_digest batch ≡ batch_digest batch'
      → ((h.decode (without_0x account) ≡ h.decode (without_0x account'))
          × (zone ≡ zone')
          × (chain ≡ chain')
          × (h.decode (without_0x contract) ≡ h.decode (without_0x contract'))
          × (entries batch.cts ≡ entries batch'.cts))
        ⊎ Collision c
  batch_digest_names_request laws types v v' proven proven' acc acc' z z' n n' con con' b b' ln ln'
        e e' d =
      let attests = verify_and_sign_batch-Attests h c t laws v proven acc z n con b e in
      let one = attests.covers in
      let two =
        (verify_and_sign_batch-Attests h c t laws v' proven' acc' z' n' con' b' e').covers in
      let lc = one.contract_length ∙ sym two.contract_length in
      elim (batch_digest-binds c (message_hashes h c t b.cts) (message_hashes h c t b'.cts)
        (AreCommitted-AreHashes laws one.expander one.account z n one.contract 0 b.cts one.items)
        (AreCommitted-AreHashes laws two.expander two.account z' n' two.contract 0 b'.cts two.items)
        d) [
          | inr found ↦ inr found
          | inl hashes ↦
              elim (first_binds h c t laws types one.expander two.expander one.account two.account z
                z' n n' one.contract two.contract lc ln ln' b.cts b'.cts attests.not_empty one.items
                two.items hashes) [
                  | inr found ↦ inr found
                  | inl same ↦
                      elim (items_bind h c t laws types one.expander two.expander one.account
                        two.account z z' n n' one.contract two.contract lc ln ln' 0 b.cts b'.cts
                        one.items two.items hashes) [
                          | inr found ↦ inr found
                          | inl listed ↦ inl (
                            one.account_decodes ∙ ap ok same.account_eq ∙ sym two.account_decodes,
                            same.zone_eq,
                            same.chain_eq,
                            one.contract_decodes
                                ∙ ap ok same.contract_eq
                                ∙ sym two.contract_decodes,
                            listed,
                          )
                        ]
                ]
        ]
