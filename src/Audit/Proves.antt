-- ===== src/Audit/Proves.antt =====
-- What the proof beside a stored ciphertext establishes for it.
use zee_k_verifier.Prelude.{
  ℕ, zero, suc, ◌+◌, Bool, List, [], ◌∷◌, length, get_elem?, some, Result, ok, map_err, ok_or,
  Bytes, Text, without_0x, ◌==◌, ◌≡◌, sym, ap, ◌∙◌, subst, inl, inr, >>=-eq-ok, map_err-eq-ok,
  ok_or-eq-ok, ok-injective, err-ne-ok, Bool-cases, ==_iff, arith,
}
use zee_k_verifier.Extern.Hex.{Hex}
use zee_k_verifier.Extern.Crypto.{Crypto}
use zee_k_verifier.Extern.Tfhe.{Tfhe, FheTypes}
use zee_k_verifier.Storage.Objects.{StoredCiphertext, StoredProof}
use zee_k_verifier.Verifier.{reconstruct_metadata}
use zee_k_verifier.Verifier.Expansion.{Rounds, expand_from_sound}
use zee_k_verifier.Audit.Proof.{
  Bincode, VerifiedCt, serialize_index, extracted, verify_and_extract_hashes,
}
use zee_k_verifier.Audit.Run.{VerificationResult, reported, compared}

module _ (h : Hex) (c : Crypto) (t : Tfhe) (n : Bincode t) where
  -- What a proof establishes for a stored ciphertext: both addresses decode, the account to twenty
  -- bytes, the proof holds for the metadata of the two objects, and the list that it proves has an
  -- item at the index of the ciphertext, whose hash this is.
  pub record Proves (crs : t.CompactPkeCrs) (pk : t.CompactPublicKey) (stored : StoredCiphertext)
      (proof : StoredProof) (hash : Bytes) : Type 0 where
    pub list : t.ProvenCompactCiphertextList
    pub account : Bytes
    pub contract : Bytes
    pub expander : t.Expander
    pub ct_type : FheTypes
    pub bytes : Bytes
    pub reads : n.deserialize proof.proof_data ≡ ok list
    pub account_decodes : h.decode (without_0x stored.metadata.account_addr) ≡ ok account
    pub account_length : length account ≡ 20
    pub contract_decodes : h.decode (without_0x proof.metadata.contract_addr) ≡ ok contract
    pub holds :
        t.verify_and_expand list crs pk (
          reconstruct_metadata account stored.metadata.security_zone stored.metadata.chain_id
            contract)
        ≡ ok expander
    pub item : serialize_index t n expander stored.metadata.ct_index ≡ ok (some (ct_type, bytes))
    pub hashed : hash ≡ c.keccak256 bytes

  extracted-eq-ok :
      (expander : t.Expander) (i : ℕ) (v : VerifiedCt)
      → extracted h c t n expander i ≡ ok v
      → (item : FheTypes × Bytes) × (serialize_index t n expander i ≡ ok (some item))
        × (v.ct_hash ≡ c.keccak256 item.1)
  unfolding extracted
  extracted-eq-ok expander i v e =
      let (found, serialized, e') = >>=-eq-ok (map_err _ (serialize_index t n expander i)) _ e in
      let (item, there, built) = >>=-eq-ok (ok_or _ found) _ e' in
      (
        item,
        map_err-eq-ok _ _ serialized ∙ ap ok (ok_or-eq-ok _ found there),
        sym (ap (λ (w : VerifiedCt). w.ct_hash) (ok-injective built)),
      )

  Rounds-get_elem? :
      (round : ℕ → Result Text VerifiedCt) (i j : ℕ) (vs : List VerifiedCt) (v : VerifiedCt)
      → Rounds round i vs
      → get_elem? vs j ≡ some v
      → round (i + j) ≡ ok v
  Rounds-get_elem? round i j [] v r e = absurd (cc)
  Rounds-get_elem? round i zero (w ∷ vs) v r e =
      let same : w ≡ v = cc in ap round (omega arith) ∙ r.0 ∙ ap ok same
  Rounds-get_elem? round i (suc j) (w ∷ vs) v r e =
      ap round (omega arith) ∙ Rounds-get_elem? round (i + 1) j vs v r.1 e

  Rounds-at :
      (round : ℕ → Result Text VerifiedCt) (j : ℕ) (vs : List VerifiedCt) (v : VerifiedCt)
      → Rounds round 0 vs
      → get_elem? vs j ≡ some v
      → round j ≡ ok v
  Rounds-at round j vs v r e = ap round (omega arith) ∙ Rounds-get_elem? round 0 j vs v r e

  verify_and_extract_hashes-Proves :
      (crs : t.CompactPkeCrs) (pk : t.CompactPublicKey) (stored : StoredCiphertext)
      (proof : StoredProof) (list : t.ProvenCompactCiphertextList) (verified : List VerifiedCt)
      (v : VerifiedCt)
      → n.deserialize proof.proof_data ≡ ok list
      → verify_and_extract_hashes h c t n list pk crs stored.metadata.account_addr
          stored.metadata.security_zone stored.metadata.chain_id proof.metadata.contract_addr
        ≡ ok verified
      → get_elem? verified stored.metadata.ct_index ≡ some v
      → Proves crs pk stored proof v.ct_hash
  unfolding verify_and_extract_hashes
  verify_and_extract_hashes-Proves crs pk stored proof list verified v reads extracts there =
      let (account, account_decodes, e3) =
        >>=-eq-ok (map_err _ (h.decode (without_0x stored.metadata.account_addr))) _ extracts in
      elim (Bool-cases (length account == 20)) [
        | inl fits ↦
            let (contract, contract_decodes, e4) =
              >>=-eq-ok (map_err _ (h.decode (without_0x proof.metadata.contract_addr))) _
                (rw fits at e3) in
            let (expander, holds, e5) = >>=-eq-ok (map_err _ _) _ e4 in
            let (rest, same, count, rounds) =
              expand_from_sound (extracted h c t n expander) (t.len expander) 0 [] verified e5 in
            let at_index : get_elem? rest stored.metadata.ct_index ≡ some v =
              subst (λ vs. get_elem? vs stored.metadata.ct_index ≡ some v) same there in
            let (item, serialized, hashed) = extracted-eq-ok expander stored.metadata.ct_index v (
              Rounds-at (extracted h c t n expander) stored.metadata.ct_index rest v rounds
                at_index) in
            record {
              list = list;
              account = account;
              contract = contract;
              expander = expander;
              ct_type = item.0;
              bytes = item.1;
              reads = reads;
              account_decodes = map_err-eq-ok _ _ account_decodes;
              account_length = (==_iff _ _).0 fits;
              contract_decodes = map_err-eq-ok _ _ contract_decodes;
              holds = map_err-eq-ok _ _ holds;
              item = serialized;
              hashed = hashed;
            }
        | inr other ↦ absurd (err-ne-ok (rw other at e3))
      ]

  pub compared-Proves :
      (crs : t.CompactPkeCrs) (pk : t.CompactPublicKey) (stored : StoredCiphertext)
      (proof : StoredProof) (flag : Bool) (result : VerificationResult)
      → compared h c t n crs pk stored proof flag ≡ ok result
      → (v : VerifiedCt) × Proves crs pk stored proof v.ct_hash
        × (result ≡ reported h stored flag v)
  unfolding compared
  compared-Proves crs pk stored proof flag result e =
      let (list, reads, e1) = >>=-eq-ok (map_err _ (n.deserialize proof.proof_data)) _ e in
      let (verified, extracts, e2) = >>=-eq-ok (map_err _ _) _ e1 in
      let (v, there, built) =
        >>=-eq-ok (ok_or _ (get_elem? verified stored.metadata.ct_index)) _ e2 in
      (
        v,
        verify_and_extract_hashes-Proves crs pk stored proof list verified v
            (map_err-eq-ok _ _ reads) (map_err-eq-ok _ _ extracts) (ok_or-eq-ok _ _ there),
        sym (ok-injective built),
      )
