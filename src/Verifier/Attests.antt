-- ===== src/Verifier/Attests.antt =====
-- What a signed batch attests.
use zee_k_verifier.Prelude.{
  ℕ, ◌+◌, false, List, [], ◌∷◌, map, length, Bytes, Text, some, ok, map_err, ok_or, ◌≡◌, ◌≢◌, refl,
  sym, ap, ◌∙◌, >>=-eq-ok, ok-injective, err-ne-ok, without_0x, ◌==◌, Bool-cases, inl, inr, subst,
  map_err-eq-ok, ok_or-eq-ok, ==_iff,
}
use zee_k_verifier.Extern.Hex.{Hex}
use zee_k_verifier.Extern.Crypto.{Crypto, IsCrypto}
use zee_k_verifier.Extern.Tfhe.{Tfhe}
use zee_k_verifier.Signing.Message.{build_hash}
use zee_k_verifier.CtSigner.{ct_message_hash, batch_message, sign_batch}
use zee_k_verifier.CtSigner.Binding.{sign_batch_sound}
use zee_k_verifier.Verifier.{
  VerifiedCt, VerifiedBatch, Verifier, reconstruct_metadata, verified_ct, verify_and_expand,
  verify_and_sign_batch,
}
use zee_k_verifier.Verifier.Errors.{hex_error, signing}
use zee_k_verifier.Verifier.Expander.{serialize_index}
use zee_k_verifier.Verifier.Expansion.{Rounds, expand_from_sound}

module _ (h : Hex) (c : Crypto) (t : Tfhe) where
  -- One item of a batch: the ciphertext at its index, its hash, and its commitment.
  pub record IsCommitted (expander : t.Expander) (account : Bytes) (zone chain : ℕ)
      (contract : Bytes) (i : ℕ) (ct : VerifiedCt) : Type 0 where
    pub expanded : serialize_index t expander i ≡ ok (some (ct.ct_type, ct.ct_bytes))
    pub hashed : ct.ct_hash ≡ c.keccak256 ct.ct_bytes
    pub message :
        ct.message_hash ≡ ct_message_hash c t ct.ct_hash ct.ct_type zone account chain contract

  -- The items from an index on.
  abbrev pub AreCommitted : t.Expander → Bytes → ℕ → ℕ → Bytes → ℕ → List VerifiedCt → Type 0
  AreCommitted expander account zone chain contract i [] = Unit
  AreCommitted expander account zone chain contract i (ct ∷ cts) =
      IsCommitted expander account zone chain contract i ct
      × AreCommitted expander account zone chain contract (i + 1) cts

  -- A list of ciphertexts that a proof covers for a request.
  pub record Covers (v : Verifier h c t) (proven : t.ProvenCompactCiphertextList)
      (account_addr : Text) (zone chain : ℕ) (contract_addr : Text) (cts : List VerifiedCt)
      : Type 0 where
    pub account : Bytes
    pub contract : Bytes
    pub expander : t.Expander
    pub account_decodes : h.decode (without_0x account_addr) ≡ ok account
    pub contract_decodes : h.decode (without_0x contract_addr) ≡ ok contract
    pub contract_length : length contract ≡ 20
    pub proof_holds :
        t.verify_and_expand proven v.crs v.pk (reconstruct_metadata account zone chain contract)
        ≡ ok expander
    pub count : length cts ≡ t.len expander
    pub items : AreCommitted expander account zone chain contract 0 cts

  verified_ct_sound :
      (expander : t.Expander) (account : Bytes) (zone chain : ℕ) (contract : Bytes) (i : ℕ)
      (ct : VerifiedCt)
      → verified_ct h c t expander account zone chain contract i ≡ ok ct
      → IsCommitted expander account zone chain contract i ct
  unfolding verified_ct
  verified_ct_sound expander account zone chain contract i ct e =
      let (found, serialized, e') = >>=-eq-ok (map_err _ (serialize_index t expander i)) _ e in
      let (item, there, built) = >>=-eq-ok (ok_or _ found) _ e' in
      subst (IsCommitted expander account zone chain contract i) (ok-injective built) (record {
        expanded = map_err-eq-ok _ _ serialized ∙ ap ok (ok_or-eq-ok _ found there);
        hashed = refl;
        message = refl;
      })

  Rounds-AreCommitted :
      (expander : t.Expander) (account : Bytes) (zone chain : ℕ) (contract : Bytes) (i : ℕ)
      (cts : List VerifiedCt)
      → Rounds (verified_ct h c t expander account zone chain contract) i cts
      → AreCommitted expander account zone chain contract i cts
  Rounds-AreCommitted expander account zone chain contract i [] r = tt
  Rounds-AreCommitted expander account zone chain contract i (ct ∷ cts) r = (
    verified_ct_sound expander account zone chain contract i ct r.0,
    Rounds-AreCommitted expander account zone chain contract (i + 1) cts r.1,
  )

  -- Of a successful expansion: both addresses decode, the contract is 20 bytes, the proof holds for
  -- the metadata of the request, and every item of the list is committed to, in order.
  pub verify_and_expand-Covers :
      (v : Verifier h c t) (proven : t.ProvenCompactCiphertextList) (account_addr : Text)
      (zone chain : ℕ) (contract_addr : Text) (cts : List VerifiedCt)
      → verify_and_expand h c t v proven account_addr zone chain contract_addr ≡ ok cts
      → Covers v proven account_addr zone chain contract_addr cts
  unfolding verify_and_expand
  verify_and_expand-Covers v proven account_addr zone chain contract_addr cts e =
      let (account, account_decodes, e2) =
        >>=-eq-ok (map_err hex_error (h.decode (without_0x account_addr))) _ e in
      let (contract, contract_decodes, e3) =
        >>=-eq-ok (map_err hex_error (h.decode (without_0x contract_addr))) _ e2 in
      elim (Bool-cases (length contract == 20)) [
        | inl fits ↦
            let (expander, held, e4) = >>=-eq-ok (map_err _ _) _ (rw fits at e3) in
            let (rest, same, count, rounds) = expand_from_sound _ (t.len expander) 0 [] cts e4 in
            record {
              account = account;
              contract = contract;
              expander = expander;
              account_decodes = map_err-eq-ok _ _ account_decodes;
              contract_decodes = map_err-eq-ok _ _ contract_decodes;
              contract_length = (==_iff _ _).0 fits;
              proof_holds = map_err-eq-ok _ _ held;
              count = ap length same ∙ count;
              items =
                  subst (AreCommitted expander account zone chain contract 0) (sym same)
                    (Rounds-AreCommitted expander account zone chain contract 0 rest rounds);
            }
        | inr other ↦ absurd (err-ne-ok (rw other at e3))
      ]

  -- The message hashes of a batch, which its one signature covers.
  abbrev pub message_hashes : List VerifiedCt → List Bytes
  message_hashes = map (λ ct. ct.message_hash)

  pub record Attests (v : Verifier h c t) (proven : t.ProvenCompactCiphertextList)
      (account_addr : Text) (zone chain : ℕ) (contract_addr : Text) (batch : VerifiedBatch h c t)
      : Type 0 where
    pub covers : Covers v proven account_addr zone chain contract_addr batch.cts
    pub not_empty : batch.cts ≢ []
    pub low_s : c.is_high batch.signature ≡ false
    pub recovers :
        c.recover
          (build_hash c (batch_message (message_hashes batch.cts)))
          batch.signature
          batch.recid
        ≡ some (c.verifying_key v.signer.signing_key)

  -- By the laws of the curve library, whenever `verify_and_sign_batch` succeeds: both addresses decode and the contract is 20 bytes,
  -- the proof holds for the metadata of exactly this account, zone, chain and contract, every item
  -- of the expanded list is there in order with its type, bytes, Keccak-256 hash and commitment to
  -- that request, there is at least one, and the signature has a low S and recovers, from the
  -- digest of all the commitments, to the key of the verifier's signer.
  pub verify_and_sign_batch-Attests :
      IsCrypto c
      → (v : Verifier h c t) (proven : t.ProvenCompactCiphertextList) (account_addr : Text)
        (zone chain : ℕ) (contract_addr : Text) (batch : VerifiedBatch h c t)
      → verify_and_sign_batch h c t v proven account_addr zone chain contract_addr ≡ ok batch
      → Attests v proven account_addr zone chain contract_addr batch
  unfolding verify_and_sign_batch
  verify_and_sign_batch-Attests laws v proven account_addr zone chain contract_addr batch e =
      let (cts, expanded, e2) =
        >>=-eq-ok (verify_and_expand h c t v proven account_addr zone chain contract_addr) _ e in
      let (signed, signs, built) =
        >>=-eq-ok (map_err signing (sign_batch c v.signer (message_hashes cts))) _ e2 in
      let (some_hash, low, found) =
        sign_batch_sound c laws v.signer (message_hashes cts) signed.0 signed.1
          (map_err-eq-ok _ _ signs) in
      subst (Attests v proven account_addr zone chain contract_addr) (ok-injective built) (record {
        covers =
            verify_and_expand-Covers v proven account_addr zone chain contract_addr cts expanded;
        not_empty = λ p. some_hash (ap message_hashes p);
        low_s = low;
        recovers = found;
      })
