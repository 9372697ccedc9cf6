-- ===== src/Audit/Search.antt =====
-- Where the stored objects are found, and that the service's are.
use zee_k_verifier.Prelude.{
  ℕ, ◌<◌, ◌^◌, List, [], ◌∷◌, ◌++◌, Option, none, some, ok, map_err, Bytes, Text, codes, decimal,
  ◌≡◌, refl, sym, ap, ◌∙◌, ◌⊎◌, inl, inr, >>=-eq-ok, map_err-eq-ok, ok-injective, err-ne-ok,
  Result-cases, subst,
}
use zee_k_verifier.Extern.Codec.{Codec, IsCodec}
use zee_k_verifier.Extern.Download.{Reader}
use zee_k_verifier.Storage.Objects.{
  StoredCiphertext, StoredProof, CtMetadata, ProofMetadata, ct_to_bytes, proof_to_bytes,
}
use zee_k_verifier.Storage.Paths.{generate_object_key, build_base_path, cts_type, proofs_type}
use zee_k_verifier.Storage.Manager.{Upload, ct_upload, proof_upload}
use zee_k_verifier.Storage.Manager.Number.{parse_u32-decimal}
use zee_k_verifier.Audit.Layouts.{
  Layered, IsLayered, stored_ct_from_bytes, stored_proof_from_bytes, current_reads,
}
use zee_k_verifier.Audit.Fetch.{
  or_panic, current_prefix, previous_prefix, storage_base_path, read_object_bytes, looked_up,
  parsed, fetch_from, fetch_ciphertext, fetch_proof,
}

-- The layout that the storage manager writes.
pub storage_base_path-build_base_path :
    (chain zone : ℕ) (kind : Text)
    → storage_base_path current_prefix chain zone kind ≡ build_base_path chain zone kind
unfolding storage_base_path build_base_path codes
storage_base_path-build_base_path chain zone kind = refl

or_panic-eq-ok : {A : Type 0} {o : Option A} {a : A} → or_panic o ≡ ok a → o ≡ some a
or_panic-eq-ok {o = none} e = absurd (err-ne-ok e)
or_panic-eq-ok {o = some x} e = ap some (ok-injective e)

ct_to_bytes-eq-ok :
    (c : Codec StoredCiphertext) (s : StoredCiphertext) {bytes : Bytes}
    → ct_to_bytes c s ≡ ok bytes
    → c.serialize s ≡ ok bytes
unfolding ct_to_bytes
ct_to_bytes-eq-ok c s e = map_err-eq-ok _ (c.serialize s) e

proof_to_bytes-eq-ok :
    (c : Codec StoredProof) (s : StoredProof) {bytes : Bytes}
    → proof_to_bytes c s ≡ ok bytes
    → c.serialize s ≡ ok bytes
unfolding proof_to_bytes
proof_to_bytes-eq-ok c s e = map_err-eq-ok _ (c.serialize s) e

stored_ct_from_bytes_reads :
    (b : Layered) {bytes : Bytes} {s : StoredCiphertext}
    → b.ciphertexts.deserialize bytes ≡ ok s
    → stored_ct_from_bytes b bytes ≡ ok s
unfolding stored_ct_from_bytes
stored_ct_from_bytes_reads b e = rw e refl

module _ (b : Layered) (storage : Reader) (parent : Text) where
  -- An object of the service lies in the bucket at its path, whole.
  pub record Lies (u : Upload) : Type 0 where
    pub path : Text
    pub content : Bytes
    pub bytes : u.bytes ≡ ok content
    pub at : generate_object_key u.key (some u.base_path) none ≡ some path
    pub reads : read_object_bytes storage parent path ≡ ok content

  -- A ciphertext is at a prefix.
  pub record IsAt (ct_hash : Text) (chain zone : ℕ) (prefix : Text) (stored : StoredCiphertext)
      : Type 0 where
    pub path : Text
    pub content : Bytes
    pub at :
        generate_object_key ct_hash (some (storage_base_path prefix chain zone cts_type)) none
        ≡ some path
    pub reads : read_object_bytes storage parent path ≡ ok content
    pub parses : stored_ct_from_bytes b content ≡ ok stored

  parsed-eq-ok :
      (prefix : Text) (bytes : Bytes) (found : StoredCiphertext × Text)
      → parsed b storage parent prefix bytes ≡ ok found
      → (stored_ct_from_bytes b bytes ≡ ok found.0) × (prefix ≡ found.1)
  unfolding parsed
  parsed-eq-ok prefix bytes found e =
      let (stored, reads, pair) = >>=-eq-ok (map_err _ (stored_ct_from_bytes b bytes)) _ e in
      let same : ◌≡◌ {A = StoredCiphertext × Text} (stored, prefix) found = ok-injective pair in
      (
        map_err-eq-ok _ _ reads ∙ ap (λ (f : StoredCiphertext × Text). ok f.0) same,
        ap (λ f. f.1) same,
      )

  -- One prefix of the search: the object is there, or it cannot be read and the search goes on.
  fetch_from-eq-ok :
      (prefix : Text) (prefixes failures : List Text) (ct_hash : Text) (chain zone : ℕ)
      (found : StoredCiphertext × Text)
      → fetch_from b storage parent (prefix ∷ prefixes) failures ct_hash chain zone ≡ ok found
      → ((prefix ≡ found.1) × IsAt ct_hash chain zone prefix found.0)
        ⊎ ((more : List Text) × (fetch_from b storage parent prefixes more ct_hash chain zone
              ≡ ok found))
  unfolding fetch_from
  fetch_from-eq-ok prefix prefixes failures ct_hash chain zone found e =
      let (path, at, e') =
        >>=-eq-ok
          (or_panic (
            generate_object_key ct_hash (some (storage_base_path prefix chain zone cts_type)) none))
          _ e in
      elim (Result-cases (read_object_bytes storage parent path)) [
        | inl (content, reads) ↦
            let (parses, same) =
              parsed-eq-ok prefix content found (sym (rw (reads, looked_up) refl) ∙ e') in
            inl (
              same,
              record {
                path = path;
                content = content;
                at = or_panic-eq-ok at;
                reads = reads;
                parses = parses;
              },
            )
        | inr (why, fails) ↦ inr (failures ++ why ∷ [], sym (rw (fails, looked_up) refl) ∙ e')
      ]

  -- What is fetched lies under one of the two prefixes, and is returned with it.
  pub fetch_ciphertext-IsAt :
      (ct_hash : Text) (chain zone : ℕ) (found : StoredCiphertext × Text)
      → fetch_ciphertext b storage parent ct_hash chain zone ≡ ok found
      → IsAt ct_hash chain zone found.1 found.0
  unfolding fetch_ciphertext
  fetch_ciphertext-IsAt ct_hash chain zone found e =
      elim (fetch_from-eq-ok current_prefix (previous_prefix ∷ []) [] ct_hash chain zone found e) [
        | inl (same, here) ↦ subst (λ p. IsAt ct_hash chain zone p found.0) same here
        | inr (more, e') ↦
            elim (fetch_from-eq-ok previous_prefix [] more ct_hash chain zone found e') [
              | inl (same, here) ↦ subst (λ p. IsAt ct_hash chain zone p found.0) same here
              | inr (most, e'') ↦ absurd (err-ne-ok (sym (unfold fetch_from in refl) ∙ e''))
            ]
      ]

  -- A fetched ciphertext has a zone of one byte.
  pub fetch_ciphertext_zone :
      IsLayered b
      → (ct_hash : Text) (chain zone : ℕ) (found : StoredCiphertext × Text)
      → fetch_ciphertext b storage parent ct_hash chain zone ≡ ok found
      → found.0.metadata.security_zone < 256
  unfolding stored_ct_from_bytes
  fetch_ciphertext_zone laws ct_hash chain zone found e =
      let here = fetch_ciphertext-IsAt ct_hash chain zone found e in
      laws.zone_fits found.0 here.content (map_err-eq-ok _ _ here.parses)

  -- An object that is at the current prefix is what the search returns.
  fetch_ciphertext_current :
      (ct_hash : Text) (chain zone : ℕ) (stored : StoredCiphertext)
      → IsAt ct_hash chain zone current_prefix stored
      → fetch_ciphertext b storage parent ct_hash chain zone ≡ ok (stored, current_prefix)
  unfolding fetch_ciphertext fetch_from
  fetch_ciphertext_current ct_hash chain zone stored here =
      rw (here.at, here.reads, looked_up, parsed, here.parses) refl

  fetch_proof_current :
      (proof_id path : Text) (content : Bytes) (chain zone : ℕ) (p : StoredProof)
      → generate_object_key proof_id
          (some (storage_base_path current_prefix chain zone proofs_type))
          none
        ≡ some path
      → read_object_bytes storage parent path ≡ ok content
      → stored_proof_from_bytes b content ≡ ok p
      → fetch_proof b storage parent proof_id chain zone current_prefix ≡ ok p
  unfolding fetch_proof
  fetch_proof_current proof_id path content chain zone p at reads parses =
      rw (at, reads, parses) refl

  -- By the laws of the codecs, the checker finds what the service uploads for a ciphertext and for its
  -- proof, if the two objects lie in the bucket whole: it fetches exactly that ciphertext, under the
  -- current prefix, whatever lies under the previous one, and with that prefix exactly that proof. The
  -- chain ids fit 32 bits, and the chain of the proof is printed.
  pub fetch-uploads :
      IsLayered b
      → IsCodec b.ciphertexts
      → (print : List Text → Text) (hash bytes : Bytes) (m : CtMetadata) (proof_id : Text)
        (proof_bytes : Bytes) (pm : ProofMetadata) (chain : ℕ)
      → chain < 2 ^ 32
      → Lies (ct_upload print b.ciphertexts hash bytes m chain)
      → Lies (proof_upload print b.current proof_id proof_bytes pm (decimal chain))
      → (fetch_ciphertext b storage parent hash chain m.security_zone
          ≡ ok (record { metadata = m; ct_data = bytes }, current_prefix))
        × (fetch_proof b storage parent proof_id chain pm.security_zone current_prefix
            ≡ ok (record { metadata = pm; proof_data = proof_bytes }))
  unfolding ct_upload proof_upload
  fetch-uploads laws codec print hash bytes m proof_id proof_bytes pm chain small ct proof = (
    fetch_ciphertext_current hash chain m.security_zone _ (record {
      path = ct.path;
      content = ct.content;
      at = rw (storage_base_path-build_base_path chain m.security_zone cts_type) ct.at;
      reads = ct.reads;
      parses =
          stored_ct_from_bytes_reads b
            (codec.deserialize_serialize _ ct.content (ct_to_bytes-eq-ok b.ciphertexts _ ct.bytes));
    }),
    fetch_proof_current proof_id proof.path proof.content chain pm.security_zone _
        (rw (storage_base_path-build_base_path chain pm.security_zone proofs_type)
          (rw (parse_u32-decimal chain small) at proof.at))
        proof.reads
        (current_reads b laws _ proof.content (proof_to_bytes-eq-ok b.current _ proof.bytes)),
  )
