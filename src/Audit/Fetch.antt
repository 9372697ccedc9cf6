-- ===== src/Audit/Fetch.antt =====
-- Finding the stored objects: the prefixes in turn, newest first, and the proof beside its
-- ciphertext. A run reads no object twice, so it sees the bucket as a function of the name.
use zee_k_verifier.Prelude.{
  ℕ, List, [], ◌∷◌, ◌++◌, Option, none, some, Result, ok, err, map_err, ◌>>=◌, Bytes, Text, codes,
  decimal, join,
}
use zee_k_verifier.Extern.Download.{Download, refused, streamed, Reader}
use zee_k_verifier.Storage.Objects.{StoredCiphertext, StoredProof}
use zee_k_verifier.Storage.Paths.{generate_object_key, cts_type, proofs_type}
use zee_k_verifier.Audit.Layouts.{Layered, stored_ct_from_bytes, stored_proof_from_bytes}

-- How a run ends without a result: an error, or a panic.
pub data Stop : Type 0 where
  failed : Text → Stop
  panicked : Stop

-- `.map_err(|e| format!("...{}", e))`
abbrev pub describing : Text → Stop → Stop
describing prefix (failed e) = failed (prefix ++ e)
describing prefix panicked = panicked

abbrev pub or_panic : {A : Type 0} → Option A → Result Stop A
or_panic none = err panicked
or_panic (some a) = ok a

abbrev pub current_prefix : Text
unfolding codes
current_prefix = codes "cofhe/v2"

abbrev pub previous_prefix : Text
unfolding codes
previous_prefix = codes "cofhe/v1"

abbrev pub storage_prefixes : List Text
storage_prefixes = current_prefix ∷ previous_prefix ∷ []

unfoldable pub storage_base_path : Text → ℕ → ℕ → Text → Text
unfolding codes decimal
storage_base_path prefix chain_id security_zone object_type =
    prefix
    ++ (codes "/chain/"
        ++ (decimal chain_id
            ++ (codes "/security-zone/" ++ (decimal security_zone ++ (b'/' ∷ object_type)))))

-- `while let Some(chunk) = reader.next().await.transpose()?`
unfoldable pub collected : Text → List (Result Text Bytes) → Bytes → Result Text Bytes
unfolding codes
collected object_path [] read = ok read
collected object_path (err e ∷ chunks) read =
    err (codes "GCS download chunk error for " ++ (object_path ++ (codes ": " ++ e)))
collected object_path (ok chunk ∷ chunks) read = collected object_path chunks (read ++ chunk)

unfoldable pub received : Text → Download → Result Text Bytes
unfolding collected codes
received object_path (refused e) =
    err (codes "GCS download failed for " ++ (object_path ++ (codes ": " ++ e)))
received object_path (streamed chunks) = collected object_path chunks []

unfoldable pub read_object_bytes : Reader → Text → Text → Result Text Bytes
unfolding received
read_object_bytes storage parent object_path = received object_path (storage parent object_path)

module _ (b : Layered) (storage : Reader) (parent : Text) where
  -- The object that is there is parsed, and its prefix returned.
  unfoldable pub parsed : Text → Bytes → Result Stop (StoredCiphertext × Text)
  unfolding codes stored_ct_from_bytes
  parsed prefix bytes = do
    stored_ct ←
        map_err (λ e. failed (codes "Failed to deserialize StoredCiphertext: " ++ e))
          (stored_ct_from_bytes b bytes)
    ok (stored_ct, prefix)

  -- One prefix: an object that is read ends the search, a failure goes to the next prefix.
  unfoldable pub looked_up :
      Text
      → Result Text Bytes
      → (Text → Result Stop (StoredCiphertext × Text))
      → Result Stop (StoredCiphertext × Text)
  unfolding parsed
  looked_up prefix (ok bytes) next = parsed prefix bytes
  looked_up prefix (err e) next = next e

  -- `for prefix in STORAGE_PREFIXES`
  unfoldable pub fetch_from :
      List Text → List Text → Text → ℕ → ℕ → Result Stop (StoredCiphertext × Text)
  unfolding codes join looked_up read_object_bytes
  fetch_from [] failures ct_hash chain_id security_zone =
      err (failed (codes "not found under any storage prefix: " ++ join (codes "; ") failures))
  fetch_from (prefix ∷ prefixes) failures ct_hash chain_id security_zone = do
    object_path ← or_panic (
        generate_object_key ct_hash
          (some (storage_base_path prefix chain_id security_zone cts_type)) none)
    looked_up prefix (read_object_bytes storage parent object_path)
        (λ e. fetch_from prefixes (failures ++ e ∷ []) ct_hash chain_id security_zone)

  unfoldable pub fetch_ciphertext : Text → ℕ → ℕ → Result Stop (StoredCiphertext × Text)
  unfolding fetch_from
  fetch_ciphertext ct_hash chain_id security_zone =
      fetch_from storage_prefixes [] ct_hash chain_id security_zone

  unfoldable pub fetch_proof : Text → ℕ → ℕ → Text → Result Stop StoredProof
  unfolding codes read_object_bytes stored_proof_from_bytes
  fetch_proof proof_id chain_id security_zone prefix = do
    object_path ← or_panic (
        generate_object_key proof_id
          (some (storage_base_path prefix chain_id security_zone proofs_type)) none)
    bytes ← map_err failed (read_object_bytes storage parent object_path)
    map_err (λ e. failed (codes "Failed to deserialize StoredProof: " ++ e))
        (stored_proof_from_bytes b bytes)
