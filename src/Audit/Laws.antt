-- ===== src/Audit/Laws.antt =====
-- What a run of the checker that returns a result has established.
use zee_k_verifier.Prelude.{
  ℕ, ◌<◌, Bool, true, ◌++◌, length, Result, ok, map_err, ok_or, Bytes, IsBytes, Text, codes,
  text_eq, text_eq_sound, text_eq_refl, if◌then◌else◌, ◌≡◌, ◌↔◌, refl, sym, ap, ◌∙◌, subst, inl,
  inr, >>=-eq-ok, map_err-eq-ok, err-ne-ok, Bool-cases,
}
use zee_k_verifier.Extern.Hex.{Hex, IsHex}
use zee_k_verifier.Extern.Crypto.{Crypto, IsCrypto}
use zee_k_verifier.Extern.Tfhe.{Tfhe}
use zee_k_verifier.Extern.TfheKeys.{TfheKeys}
use zee_k_verifier.Extern.Download.{Reader, Files}
use zee_k_verifier.Storage.Objects.{StoredCiphertext, StoredProof}
use zee_k_verifier.Audit.Layouts.{Layered, IsLayered}
use zee_k_verifier.Audit.Hashes.{SameCore, shown_hash-injective}
use zee_k_verifier.Audit.Proves.{Proves, compared-Proves}
use zee_k_verifier.Audit.Search.{fetch_ciphertext_zone}
use zee_k_verifier.Audit.Fetch.{fetch_ciphertext, fetch_proof}
use zee_k_verifier.Audit.Proof.{Bincode, VerifiedCt}
use zee_k_verifier.Audit.Run.{
  Config, Keys, HashMetadata, VerificationResult, parse_hash, shown_hash, reported, load_keys,
  audited, run_verification,
}

module _ (h : Hex) (c : Crypto) (t : Tfhe) (k : TfheKeys t) (n : Bincode t) (b : Layered) where
  -- What a run with a result has found in the bucket, and what follows for the two.
  pub record Audits (files : Files) (client : Result Text Reader) (ct_hash : Text) (chain : ℕ)
      (config : Config) (result : VerificationResult) : Type 0 where
    pub said : HashMetadata
    pub storage : Reader
    pub bucket : Text
    pub keys : Keys t k files
    pub stored : StoredCiphertext
    pub prefix : Text
    pub proof : StoredProof
    pub proven : Bytes
    pub parses : parse_hash h ct_hash ≡ ok said
    pub built : client ≡ ok storage
    pub keys_loaded : load_keys t k files config.keys ≡ ok keys
    pub ct_fetched :
        fetch_ciphertext b storage
          (codes "projects/_/buckets/" ++ bucket)
          ct_hash
          chain
          said.security_zone
        ≡ ok (stored, prefix)
    pub not_corrupt :
        stored.metadata.ct_hash
        ≡ shown_hash h (c.keccak256 stored.ct_data) stored said.is_trivially_encrypted
    pub proof_fetched :
        fetch_proof b storage
          (codes "projects/_/buckets/" ++ bucket)
          stored.metadata.proof_id
          stored.metadata.chain_id
          stored.metadata.security_zone
          prefix
        ≡ ok proof
    pub proves : Proves h c t n keys.crs keys.pk stored proof proven
    pub matches :
        (result.verification.ct_hash_matches ≡ true) ↔ SameCore proven (c.keccak256 stored.ct_data)
    pub status :
        result.status
        ≡ (if result.verification.ct_hash_matches then codes "success" else codes "mismatch")

  -- The comparison at the end, for a run that has come so far.
  reported_matches :
      IsHex h
      → IsCrypto c
      → (stored : StoredCiphertext) (flag : Bool) (v : VerifiedCt) (bytes : Bytes)
      → stored.metadata.security_zone < 256
      → v.ct_hash ≡ c.keccak256 bytes
      → stored.metadata.ct_hash ≡ shown_hash h (c.keccak256 stored.ct_data) stored flag
      → ((reported h stored flag v).verification.ct_hash_matches ≡ true)
        ↔ SameCore v.ct_hash (c.keccak256 stored.ct_data)
  unfolding reported
  reported_matches hex laws stored flag v bytes zone hashed intact =
      let same =
        shown_hash-injective h hex stored flag zone v.ct_hash (c.keccak256 stored.ct_data)
          (subst IsBytes (sym hashed) (laws.keccak256-IsBytes bytes))
          (laws.keccak256-IsBytes stored.ct_data) (ap length hashed ∙ laws.length-keccak256 bytes)
          (laws.length-keccak256 stored.ct_data) in
      (
        λ m. same.0 (text_eq_sound _ _ m ∙ intact),
        λ core.
            ap (text_eq (shown_hash h v.ct_hash stored flag)) (intact ∙ sym (same.1 core))
            ∙ text_eq_refl (shown_hash h v.ct_hash stored flag),
      )

  -- By the laws of the hex and hash libraries and of the stored layouts, a run that returns a result
  -- has read its hash, built its client and loaded its keys, fetched a ciphertext whose own bytes hash
  -- to the hash in its metadata, and fetched beside it, under the same prefix, the proof it names; that
  -- proof holds for the account, zone and chain of the ciphertext's metadata and the contract of the
  -- proof's, and its list has an item at the index of the ciphertext. The result says that the hash
  -- matches exactly when the Keccak-256 hash of that item, as plain bincode writes it, and that of the
  -- stored bytes agree in their first thirty bytes; its status is success then and mismatch otherwise.
  pub run_verification-Audits :
      IsHex h
      → IsCrypto c
      → IsLayered b
      → (files : Files) (client : Result Text Reader) (ct_hash : Text) (chain : ℕ) (config : Config)
        (result : VerificationResult)
      → run_verification h c t k n b files client ct_hash chain config ≡ ok result
      → Audits files client ct_hash chain config result
  unfolding run_verification audited
  run_verification-Audits hex laws layered files client ct_hash chain config result e =
      let (place, _, e1) = >>=-eq-ok (ok_or _ config.storage) _ e in
      let (said, parses, e2) = >>=-eq-ok (parse_hash h ct_hash) _ e1 in
      let (storage, built, e3) = >>=-eq-ok (map_err _ client) _ e2 in
      let (keys, keys_loaded, e4) = >>=-eq-ok (load_keys t k files config.keys) _ e3 in
      let (found, ct_fetched, e5) = >>=-eq-ok (map_err _ _) _ e4 in
      let (stored, prefix) = found in
      let flag = said.is_trivially_encrypted in
      let parent = codes "projects/_/buckets/" ++ place.bucket in
      let zone =
        fetch_ciphertext_zone b storage parent layered ct_hash chain said.security_zone found
          (map_err-eq-ok _ _ ct_fetched) in
      elim (Bool-cases
        (text_eq (shown_hash h (c.keccak256 stored.ct_data) stored flag) stored.metadata.ct_hash)) [
          | inl same ↦
              let intact = sym (text_eq_sound _ _ same) in
              let (proof, proof_fetched, e6) = >>=-eq-ok (map_err _ _) _ (rw same at e5) in
              let (v, proves, ends) =
                compared-Proves h c t n keys.crs keys.pk stored proof flag result e6 in
              record {
                said = said;
                storage = storage;
                bucket = place.bucket;
                keys = keys;
                stored = stored;
                prefix = prefix;
                proof = proof;
                proven = v.ct_hash;
                parses = parses;
                built = map_err-eq-ok _ _ built;
                keys_loaded = keys_loaded;
                ct_fetched = map_err-eq-ok _ _ ct_fetched;
                not_corrupt = intact;
                proof_fetched = map_err-eq-ok _ _ proof_fetched;
                proves = proves;
                matches =
                    subst
                      (λ (r : VerificationResult).
                        (r.verification.ct_hash_matches ≡ true)
                        ↔ SameCore v.ct_hash (c.keccak256 stored.ct_data))
                      (sym ends)
                      (reported_matches hex laws stored flag v proves.bytes zone proves.hashed
                        intact);
                status =
                    subst
                      (λ (r : VerificationResult). r.status ≡ (
                        if r.verification.ct_hash_matches
                        then codes "success"
                        else codes "mismatch"))
                      (sym ends) (unfold reported in refl);
              }
          | inr differ ↦ absurd (err-ne-ok (rw differ at e5))
        ]
