-- ===== src/Api/Batch/Tests.antt =====
-- A request that is served, and one that is shed.
use zee_k_verifier.Prelude.{
  ℕ, ◌+◌, [], ◌∷◌, ◌++◌, none, some, ok, codes, true, replicate, ◌≡◌, refl, without_0x, with_0x,
  strip_prefix,
}
use zee_k_verifier.Samples.HexCrate
use zee_k_verifier.Samples.CryptoCrate
use zee_k_verifier.Samples.TfheCrate
use zee_k_verifier.Samples.Bincode
use zee_k_verifier.CtSigner.{sign_batch}
use zee_k_verifier.Config.{default_retry}
use zee_k_verifier.Verifier.{
  Verifier, verified_ct, reconstruct_metadata, verify_and_expand, verify_and_sign_batch,
}
use zee_k_verifier.Verifier.Expander.{serialize_index, safe_deserialize}
use zee_k_verifier.Storage.Objects.{ct_to_bytes, proof_to_bytes}
use zee_k_verifier.Storage.Manager.{
  StorageProvider, uploads, calculate_proof_id, ct_upload, proof_upload,
}
use zee_k_verifier.Storage.Manager.Join.{
  store_proof_and_cts, try_join_all, turn, turn_with, after_call, pull, reply_of,
}
use zee_k_verifier.Api.Address.{canonical_contract_address}
use zee_k_verifier.Api.StoreCts.{
  response, store_cts_loop, store_cts_internally, store_cts_internally_retryable,
}
use zee_k_verifier.Api.Persist.{Services, persist_cts, persisted, external_storage, persist_result}
use zee_k_verifier.Api.Batch.{
  VerifyRequest, Handled, handle, verified, verify_and_sign_batch_impl, gated_verify, gated,
  spawned, after_verify, after_persist, reply,
}

abbrev verifier : Verifier HexCrate.sample CryptoCrate.sample TfheCrate.sample
verifier = record { pk = tt; crs = tt; signer = record { signing_key = 7 } }

abbrev bucket : StorageProvider ℕ
bucket = record {
  upload = λ key payload metadata base dynamic n. (ok tt, n + 1);
  backend_name = [];
  probe = λ n. (ok tt, n);
}

abbrev services : Services ℕ ℕ
services = record {
  has_storage = true;
  retry_config = default_retry;
  provider = bucket;
  blake3_hex = λ b. b;
  array_to_string = λ ts. [];
  ct_codec = Bincode.ct_codec;
  proof_codec = Bincode.proof_codec;
  post = λ path body n. (response 200 [], n + 1);
  external_endpoint = [];
}

abbrev request : VerifyRequest
request = record {
  packed_list = (1 ∷ 17 ∷ []) ++ (replicate 28 0 ++ 0 ∷ 0 ∷ 0 ∷ 5 ∷ []) ++ replicate 20 170;
  account_addr = b'1' ∷ b'1' ∷ [];
  security_zone = 1;
  chain_id = 5;
  contract_address = replicate 40 b'A';
}

served :
    (handled : Handled HexCrate.sample CryptoCrate.sample TfheCrate.sample services) × (handle
        HexCrate.sample CryptoCrate.sample TfheCrate.sample services verifier true none request []
        []
        (0 ∷ 0 ∷ [])
        0
        0
      ≡ some handled)
    × (handled.response.status ≡ 200)
unfolding handle verified verify_and_sign_batch_impl gated_verify gated spawned after_verify
    after_persist reply persist_cts persisted external_storage persist_result
    canonical_contract_address verify_and_sign_batch verify_and_expand verified_ct sign_batch
    reconstruct_metadata serialize_index safe_deserialize without_0x with_0x strip_prefix codes
    HexCrate.decode HexCrate.encode CryptoCrate.keccak256 TfheCrate.check TfheCrate.discriminant
    store_proof_and_cts try_join_all turn turn_with after_call pull reply_of uploads
    calculate_proof_id ct_upload proof_upload ct_to_bytes proof_to_bytes
    store_cts_internally_retryable store_cts_loop store_cts_internally
served = (_, refl, refl)
