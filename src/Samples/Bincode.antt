-- ===== src/Samples/Bincode.antt =====
-- A concrete codec for the two stored objects: every text is preceded by its length.
use zee_k_verifier.Prelude.{
  ℕ, zero, suc, List, [], ◌∷◌, ◌++◌, length, take, drop, ok, Bytes, Text, ◌≡◌, refl, ap,
  take-append, drop-append, ok-injective, subst,
}
use zee_k_verifier.Extern.Codec.{Codec, IsCodec}
use zee_k_verifier.Storage.Objects.{StoredCiphertext, StoredProof}

abbrev pack : Text → Bytes → Bytes
pack t rest = length t ∷ (t ++ rest)

abbrev unpack : Bytes → Text × Bytes
unpack [] = ([], [])
unpack (n ∷ s) = (take n s, drop n s)

take-packed : (t : Text) (rest : Bytes) → take (length t) (t ++ rest) ≡ t
take-packed t rest = take-append t rest (length t) refl

drop-packed : (t : Text) (rest : Bytes) → drop (length t) (t ++ rest) ≡ rest
drop-packed t rest = drop-append t rest (length t) refl

abbrev pack_all : List Text → Bytes → Bytes
pack_all [] rest = rest
pack_all (t ∷ ts) rest = pack t (pack_all ts rest)

abbrev unpack_all : ℕ → Bytes → List Text × Bytes
unpack_all zero s = ([], s)
unpack_all (suc n) s = let (t, s1) = unpack s in let (ts, s2) = unpack_all n s1 in (t ∷ ts, s2)

unpack_all-pack_all :
    (ts : List Text) (rest : Bytes) → unpack_all (length ts) (pack_all ts rest) ≡ (ts, rest)
unpack_all-pack_all [] rest = refl
unpack_all-pack_all (t ∷ ts) rest = simp (take-packed, drop-packed, unpack_all-pack_all ts rest)

abbrev head : Bytes → ℕ × Bytes
head [] = (0, [])
head (n ∷ s) = (n, s)

unfoldable pub ct_to : StoredCiphertext → Bytes
ct_to s =
    let m = s.metadata in
    m.security_zone
    ∷ m.chain_id
    ∷ m.ct_index
    ∷ m.ct_type
    ∷ pack m.ct_hash (pack m.proof_id (pack m.account_addr (pack m.timestamp s.ct_data)))

unfoldable pub ct_from : Bytes → StoredCiphertext
ct_from s =
    let (zone, s1) = head s in
    let (chain, s2) = head s1 in
    let (index, s3) = head s2 in
    let (type, s4) = head s3 in
    let (hash, s5) = unpack s4 in
    let (proof_id, s6) = unpack s5 in
    let (account, s7) = unpack s6 in
    let (timestamp, rest) = unpack s7 in
    record {
      metadata = record {
        ct_hash = hash;
        proof_id = proof_id;
        account_addr = account;
        security_zone = zone;
        chain_id = chain;
        ct_index = index;
        ct_type = type;
        timestamp = timestamp;
      };
      ct_data = rest;
    }

ct_from-ct_to : (s : StoredCiphertext) → ct_from (ct_to s) ≡ s
unfolding ct_from ct_to
ct_from-ct_to s = simp (take-packed, drop-packed)

unfoldable pub proof_to : StoredProof → Bytes
proof_to s =
    let m = s.metadata in
    m.security_zone
    ∷ m.chain_id
    ∷ m.ct_count
    ∷ length m.ct_hashes
    ∷ pack_all m.ct_hashes (
        pack m.proof_id
          (pack m.account_addr (pack m.timestamp (pack m.contract_addr s.proof_data))))

unfoldable pub proof_from : Bytes → StoredProof
proof_from s =
    let (zone, s1) = head s in
    let (chain, s2) = head s1 in
    let (count, s3) = head s2 in
    let (hashed, s4) = head s3 in
    let (hashes, s5) = unpack_all hashed s4 in
    let (proof_id, s6) = unpack s5 in
    let (account, s7) = unpack s6 in
    let (timestamp, s8) = unpack s7 in
    let (contract, rest) = unpack s8 in
    record {
      metadata = record {
        proof_id = proof_id;
        account_addr = account;
        security_zone = zone;
        chain_id = chain;
        ct_hashes = hashes;
        ct_count = count;
        timestamp = timestamp;
        contract_addr = contract;
      };
      proof_data = rest;
    }

proof_from-proof_to : (s : StoredProof) → proof_from (proof_to s) ≡ s
unfolding proof_from proof_to
proof_from-proof_to s = simp (take-packed, drop-packed, unpack_all-pack_all)

abbrev pub ct_codec : Codec StoredCiphertext
ct_codec = record { serialize = λ s. ok (ct_to s); deserialize = λ b. ok (ct_from b) }

pub ct_codec-IsCodec : IsCodec ct_codec
ct_codec-IsCodec = record {
  deserialize_serialize =
      λ a b e. ap ok (subst (λ x. ct_from x ≡ a) (ok-injective e) (ct_from-ct_to a));
}

abbrev pub proof_codec : Codec StoredProof
proof_codec = record { serialize = λ s. ok (proof_to s); deserialize = λ b. ok (proof_from b) }

pub proof_codec-IsCodec : IsCodec proof_codec
proof_codec-IsCodec = record {
  deserialize_serialize =
      λ a b e. ap ok (subst (λ x. proof_from x ≡ a) (ok-injective e) (proof_from-proof_to a));
}
