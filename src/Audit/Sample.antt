-- ===== src/Audit/Sample.antt =====
-- Layouts and key files for the tests: every text is preceded by its length, and a text that is cut
-- short is refused.
use zee_k_verifier.Prelude.{
  ◌∙◌, ℕ, zero, suc, ◌<◌, List, [], ◌∷◌, ◌++◌, length, take, drop, Result, ok, err, false, ◌>>=◌,
  Bytes, Text, codes, ltb, if◌then◌else◌, ◌≡◌, refl, ap, subst, take-append, drop-append,
  length-append, ok-injective, arith, Bool-cases, inl, inr, err-ne-ok, ltb→lt, >>=-eq-ok,
}
use zee_k_verifier.Extern.Codec.{IsCodec}
use zee_k_verifier.Storage.Objects.{StoredCiphertext, StoredProof}
use zee_k_verifier.Samples.TfheCrate
use zee_k_verifier.Samples.TfheCrate.{Proven}
use zee_k_verifier.Samples.Bincode.{ct_codec, ct_codec-IsCodec}
use zee_k_verifier.Audit.Layouts.{LegacyStoredProof, Layered, IsLayered}
use zee_k_verifier.Audit.Proof.{Bincode}

abbrev pub short : Text
unfolding codes
short = codes "unexpected end"

abbrev pub pack : Text → Bytes → Bytes
pack t rest = length t ∷ (t ++ rest)

unpack : Bytes → Result Text (Text × Bytes)
unpack [] = err short
unpack (n ∷ s) = if ltb (length s) n then err short else ok (take n s, drop n s)

unpack-pack : (t : Text) (rest : Bytes) → unpack (pack t rest) ≡ ok (t, rest)
unfolding unpack
unpack-pack t rest =
    let fits : ltb (length (t ++ rest)) (length t) ≡ false = ground (arith, length-append t rest) in
    rw (fits, take-append t rest (length t) refl, drop-append t rest (length t) refl) refl

abbrev pub pack_all : List Text → Bytes → Bytes
pack_all [] rest = rest
pack_all (t ∷ ts) rest = pack t (pack_all ts rest)

unpack_all : ℕ → Bytes → Result Text (List Text × Bytes)
unfolding unpack
unpack_all zero s = ok ([], s)
unpack_all (suc n) s = do
  first ← unpack s
  rest ← unpack_all n first.1
  ok (first.0 ∷ rest.0, rest.1)

unpack_all-pack_all :
    (ts : List Text) (rest : Bytes) → unpack_all (length ts) (pack_all ts rest) ≡ ok (ts, rest)
unfolding unpack_all
unpack_all-pack_all [] rest = refl
unpack_all-pack_all (t ∷ ts) rest =
    rw (unpack-pack t (pack_all ts rest), unpack_all-pack_all ts rest) refl

byte : Bytes → Result Text (ℕ × Bytes)
byte [] = err short
byte (n ∷ s) = ok (n, s)

-- The fields that both layouts begin with, then what follows.
unfoldable pub previous_to : LegacyStoredProof → Bytes
previous_to s =
    let m = s.metadata in
    m.security_zone
    ∷ m.chain_id
    ∷ m.ct_count
    ∷ length m.ct_hashes
    ∷ pack_all m.ct_hashes
        (pack m.proof_id (pack m.account_addr (pack m.timestamp (pack s.proof_data []))))

unfoldable pub previous_from : Bytes → Result Text (LegacyStoredProof × Bytes)
unfolding unpack unpack_all byte
previous_from s = do
  zone ← byte s
  chain ← byte zone.1
  count ← byte chain.1
  hashed ← byte count.1
  hashes ← unpack_all hashed.0 hashed.1
  proof_id ← unpack hashes.1
  account ← unpack proof_id.1
  timestamp ← unpack account.1
  rest ← unpack timestamp.1
  ok (
    record {
      metadata = record {
        proof_id = proof_id.0;
        account_addr = account.0;
        security_zone = zone.0;
        chain_id = chain.0;
        ct_hashes = hashes.0;
        ct_count = count.0;
        timestamp = timestamp.0;
      };
      proof_data = rest.0;
    },
    rest.1,
  )

-- The current layout has one more text.
unfoldable pub current_from : Bytes → Result Text StoredProof
unfolding unpack previous_from
current_from s = do
  older ← previous_from s
  rest ← unpack older.1
  ok (record {
    metadata = record {
      proof_id = older.0.metadata.proof_id;
      account_addr = older.0.metadata.account_addr;
      security_zone = older.0.metadata.security_zone;
      chain_id = older.0.metadata.chain_id;
      ct_hashes = older.0.metadata.ct_hashes;
      ct_count = older.0.metadata.ct_count;
      timestamp = older.0.metadata.timestamp;
      contract_addr = older.0.proof_data;
    };
    proof_data = rest.0;
  })

unfoldable pub current_to : StoredProof → Bytes
unfolding previous_to
current_to s =
    let m = s.metadata in
    m.security_zone
    ∷ m.chain_id
    ∷ m.ct_count
    ∷ length m.ct_hashes
    ∷ pack_all m.ct_hashes (
        pack m.proof_id
          (pack m.account_addr (pack m.timestamp (pack m.contract_addr (pack s.proof_data [])))))

previous_from-previous_to : (s : LegacyStoredProof) → previous_from (previous_to s) ≡ ok (s, [])
unfolding previous_from previous_to byte
previous_from-previous_to s = simp (unpack-pack, unpack_all-pack_all)

current_from-current_to : (s : StoredProof) → current_from (current_to s) ≡ ok s
unfolding current_from current_to previous_from byte
current_from-current_to s = simp (unpack-pack, unpack_all-pack_all)

current_from-previous_to : (s : LegacyStoredProof) → current_from (previous_to s) ≡ err short
unfolding current_from unpack
current_from-previous_to s = rw (previous_from-previous_to s) refl

-- A zone beyond a byte is refused.
unfoldable pub fitting : StoredCiphertext → Result Text StoredCiphertext
unfolding codes
fitting s = if ltb s.metadata.security_zone 256 then ok s else err short

fitting-lt : (s s' : StoredCiphertext) → fitting s ≡ ok s' → s'.metadata.security_zone < 256
unfolding fitting
fitting-lt s s' e = elim (Bool-cases (ltb s.metadata.security_zone 256)) [
  | inl fits ↦
      subst (λ (x : StoredCiphertext). x.metadata.security_zone < 256) (ok-injective (rw fits at e))
        (ltb→lt _ _ fits)
  | inr other ↦ absurd (err-ne-ok (rw other at e))
]

abbrev pub layered : Layered
layered = record {
  ciphertexts = record {
    serialize = λ s. fitting s >>= ct_codec.serialize;
    deserialize = λ b. ct_codec.deserialize b >>= fitting;
  };
  current = record { serialize = λ s. ok (current_to s); deserialize = current_from };
  previous = record {
    serialize = λ s. ok (previous_to s);
    deserialize = λ b. previous_from b >>= λ r. ok r.0;
  };
}

pub layered-IsLayered : IsLayered layered
layered-IsLayered = record {
  zone_fits = λ s bytes e.
      let (read, _, fits) = >>=-eq-ok (ct_codec.deserialize bytes) fitting e in
      fitting-lt read s fits;
  current_reads =
      λ p bytes e. subst (λ x. current_from x ≡ ok p) (ok-injective e) (current_from-current_to p);
  previous_reads = λ p bytes e.
      subst (λ x. (previous_from x >>= λ r. ok r.0) ≡ ok p) (ok-injective e)
        (rw (previous_from-previous_to p) refl);
  current_refuses = λ p bytes e. (
    short,
    subst (λ x. current_from x ≡ err short) (ok-injective e) (current_from-previous_to p),
  );
}

abbrev pub bincode : Proven → Bincode TfheCrate.sample
bincode proven = record { serialize = λ ct. ok ct; deserialize = λ b. ok proven }

fitting-eq-ok : (s s' : StoredCiphertext) → fitting s ≡ ok s' → (fitting s ≡ ok s) × (s ≡ s')
unfolding fitting
fitting-eq-ok s s' e = elim (Bool-cases (ltb s.metadata.security_zone 256)) [
  | inl fits ↦ (rw fits refl, ok-injective (rw fits at e))
  | inr other ↦ absurd (err-ne-ok (rw other at e))
]

-- A ciphertext with a zone of one byte comes back.
pub layered-IsCodec : IsCodec layered.ciphertexts
layered-IsCodec = record {
  deserialize_serialize = λ s bytes e.
      let (s', fits, written) = >>=-eq-ok (fitting s) ct_codec.serialize e in
      let (same, unchanged) = fitting-eq-ok s s' fits in
      ap (λ r. r >>= fitting) (ct_codec-IsCodec.deserialize_serialize s' bytes written)
      ∙ (subst (λ x. fitting x ≡ ok s) unchanged same);
}
