-- ===== src/Audit/Tests.antt =====
-- The checker on small buckets, and its theorems there.
use zee_k_verifier.Prelude.{
  ◌≡◌, refl, true, false, List, [], ◌∷◌, ◌++◌, some, take, drop, replicate, Bytes, Text, codes,
  decimal, with_0x, without_0x, text_eq, join, Result, ok, if◌then◌else◌, arith,
}
use zee_k_verifier.Extern.Download.{Reader, Files, refused, streamed}
use zee_k_verifier.Extern.Tfhe.{uint8}
use zee_k_verifier.Samples.HexCrate
use zee_k_verifier.Samples.HexCrate.{sample-IsHex}
use zee_k_verifier.Samples.CryptoCrate
use zee_k_verifier.Samples.CryptoCrate.{sample-IsCrypto}
use zee_k_verifier.Samples.TfheCrate
use zee_k_verifier.Samples.Bincode as BincodeSample
use zee_k_verifier.Samples.TfheCrate.{Proven}
use zee_k_verifier.Storage.Objects.{StoredCiphertext, StoredProof}
use zee_k_verifier.Storage.Paths.{generate_object_key, sharded_path}
use zee_k_verifier.Verifier.{reconstruct_metadata}
use zee_k_verifier.Audit.Layouts.{
  LegacyStoredProof, Keeps, stored_proof_from_bytes, stored_proof_from_bytes_reads,
}
use zee_k_verifier.Audit.Fetch.{
  fetch_ciphertext, fetch_proof, Stop, storage_base_path, current_prefix, previous_prefix,
}
use zee_k_verifier.Audit.Run.{Config, VerificationResult, run_verification}
use zee_k_verifier.Audit.Search.{Lies, fetch-uploads}
use zee_k_verifier.Storage.Manager.{ct_upload, proof_upload}
use zee_k_verifier.Storage.Objects.{ct_to_bytes, proof_to_bytes}
use zee_k_verifier.Storage.Paths.{build_base_path}
use zee_k_verifier.Storage.Manager.Number.{parse_u32}
use zee_k_verifier.Audit.Main.{Args, exit, result_json, main}
use zee_k_verifier.Audit.Laws.{Audits, run_verification-Audits}
use zee_k_verifier.Samples.Machine.{key_files}
use zee_k_verifier.Audit.Sample.{
  layered, layered-IsLayered, layered-IsCodec, bincode, fitting, current_from, current_to,
  previous_to,
}

abbrev shown : Text
unfolding HexCrate.encode with_0x
shown = with_0x (HexCrate.encode (3 ∷ replicate 29 0 ++ 4 ∷ 1 ∷ []))

abbrev account : Text
account = replicate 40 b'1'

abbrev contract : Text
contract = replicate 40 b'a'

abbrev stored : StoredCiphertext
unfolding codes
stored = record {
  metadata = record {
    ct_hash = shown;
    proof_id = codes "0xabcde";
    account_addr = account;
    security_zone = 1;
    chain_id = 5;
    ct_index = 0;
    ct_type = 4;
    timestamp = codes "now";
  };
  ct_data = 3 ∷ [];
}

abbrev stored_proof : StoredProof
unfolding codes
stored_proof = record {
  metadata = record {
    proof_id = codes "0xabcde";
    account_addr = account;
    security_zone = 1;
    chain_id = 5;
    ct_hashes = shown ∷ [];
    ct_count = 1;
    timestamp = codes "now";
    contract_addr = contract;
  };
  proof_data = 9 ∷ 9 ∷ [];
}

abbrev older_proof : LegacyStoredProof
unfolding codes
older_proof = record {
  metadata = record {
    proof_id = codes "0xabcde";
    account_addr = account;
    security_zone = 1;
    chain_id = 5;
    ct_hashes = shown ∷ [];
    ct_count = 1;
    timestamp = codes "now";
  };
  proof_data = 9 ∷ 9 ∷ [];
}

abbrev proven : Bytes → Proven
proven contract_bytes = record {
  metadata = (1 ∷ replicate 20 17) ++ (replicate 28 0 ++ 0 ∷ 0 ∷ 0 ∷ 5 ∷ []) ++ contract_bytes;
  items = (uint8, 3 ∷ []) ∷ [];
}

-- A bucket that holds the two objects under one prefix, each in two chunks.
abbrev ct_path : Text → Text
unfolding codes
ct_path prefix =
    prefix
    ++ (codes "/chain/5/security-zone/1/verified-inputs/0300/"
        ++ HexCrate.encode (3 ∷ replicate 29 0 ++ 4 ∷ 1 ∷ []))

abbrev proof_path : Text → Text
unfolding codes
proof_path prefix = prefix ++ codes "/chain/5/security-zone/1/verification-proofs/abcd/abcde"

abbrev ct_bytes : Bytes
unfolding BincodeSample.ct_to codes HexCrate.encode with_0x
ct_bytes = BincodeSample.ct_to stored

bucket : Text → Bytes → Reader
unfolding text_eq codes HexCrate.encode
bucket prefix proof_bytes parent path =
    if text_eq path (ct_path prefix)
    then streamed (ok (take 5 ct_bytes) ∷ ok (drop 5 ct_bytes) ∷ [])
    else if text_eq path (proof_path prefix)
    then streamed (ok proof_bytes ∷ [])
    else refused (codes "404")

abbrev config : Config
unfolding codes
config = record {
  keys = record { crs_path = codes "crs"; pk_path = codes "pk"; sk_path = codes "sk" };
  storage = some (record { bucket = codes "b" });
}

abbrev files : Files
files path = ok []

abbrev run : Proven → Reader → Result Stop VerificationResult
run p reader =
    run_verification HexCrate.sample CryptoCrate.sample TfheCrate.sample key_files (bincode p)
      layered files (ok reader) shown 5 config

running : Unit {0}
unfolding run_verification ct_upload proof_upload ct_to_bytes proof_to_bytes build_base_path
    parse_u32 codes decimal join with_0x without_0x text_eq generate_object_key sharded_path
    storage_base_path bucket fitting BincodeSample.ct_from ct_bytes current_from current_to
    previous_to HexCrate.encode HexCrate.decode CryptoCrate.keccak256 TfheCrate.check
    TfheCrate.discriminant reconstruct_metadata
running = tt

-- Found under the current prefix, with the current layout.
audited :
    (r : VerificationResult) × (run
        (proven (replicate 20 170))
        (bucket current_prefix (current_to stored_proof))
      ≡ ok r)
unfolding running
audited = (_, refl)

audited_success : audited.0.verification.ct_hash_matches ≡ true
unfolding running audited
audited_success = refl

-- Found under the previous prefix, with the previous layout: no contract in the proof's metadata.
audited_older :
    (r : VerificationResult) × (run (proven []) (bucket previous_prefix (previous_to older_proof))
      ≡ ok r)
unfolding running
audited_older = (_, refl)

-- A mismatch: another item stands at the index. It is reported, and the command exits with 0.
mismatched :
    (r : VerificationResult) × (run
        (record (proven (replicate 20 170)) { items = (uint8, 7 ∷ []) ∷ [] })
        (bucket current_prefix (current_to stored_proof))
      ≡ ok r)
unfolding running
mismatched = (_, refl)

abbrev args : Args
unfolding codes
args = record { ct_hash = shown; chain_id = 5; json = true; config = codes "config.toml" }

mismatch_exits :
    (mismatched.0.verification.ct_hash_matches ≡ false)
    × (main args (ok config) (λ c. ok mismatched.0) ≡ (result_json mismatched.0 ∷ [], exit 0))
unfolding running mismatched main
mismatch_exits = (refl, refl)

run_verification-Audits_example :
    Audits HexCrate.sample CryptoCrate.sample TfheCrate.sample key_files
      (bincode (proven (replicate 20 170)))
      layered
      files
      (ok (bucket current_prefix (current_to stored_proof)))
      shown
      5
      config
      audited.0
run_verification-Audits_example =
    run_verification-Audits HexCrate.sample CryptoCrate.sample TfheCrate.sample key_files
      (bincode (proven (replicate 20 170))) layered sample-IsHex sample-IsCrypto layered-IsLayered
      files (ok (bucket current_prefix (current_to stored_proof))) shown 5 config audited.0
      audited.1

stored_proof_from_bytes_reads_example :
    (stored_proof_from_bytes layered (current_to stored_proof) ≡ ok stored_proof)
    × (read : StoredProof) × (stored_proof_from_bytes layered (previous_to older_proof) ≡ ok read)
    × Keeps older_proof read
stored_proof_from_bytes_reads_example =
    stored_proof_from_bytes_reads layered layered-IsLayered stored_proof (current_to stored_proof)
      older_proof (previous_to older_proof) refl refl

-- The service's objects, where it puts them.
abbrev no_print : List Text → Text
no_print ts = []

ct_Lies :
    Lies layered
      (bucket current_prefix (current_to stored_proof))
      []
      (ct_upload no_print layered.ciphertexts shown (3 ∷ []) stored.metadata 5)
unfolding running
ct_Lies = record { path = _; content = _; bytes = refl; at = refl; reads = refl }

proof_Lies : Lies layered (bucket current_prefix (current_to stored_proof)) [] (
    proof_upload no_print layered.current
      (codes "0xabcde")
      (9 ∷ 9 ∷ [])
      stored_proof.metadata
      (decimal 5))
unfolding running
proof_Lies = record { path = _; content = _; bytes = refl; at = refl; reads = refl }

fetch-uploads_example :
    (fetch_ciphertext layered (bucket current_prefix (current_to stored_proof)) [] shown 5 1
      ≡ ok (stored, current_prefix))
    × (fetch_proof layered
          (bucket current_prefix (current_to stored_proof))
          []
          (codes "0xabcde")
          5
          1
          current_prefix
        ≡ ok stored_proof)
unfolding stored stored_proof
fetch-uploads_example =
    fetch-uploads layered (bucket current_prefix (current_to stored_proof)) [] layered-IsLayered
      layered-IsCodec no_print shown (3 ∷ []) stored.metadata (codes "0xabcde") (9 ∷ 9 ∷ [])
      stored_proof.metadata 5 (omega arith) ct_Lies proof_Lies
