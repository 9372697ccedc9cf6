-- ===== src/Storage/Manager/Tests.antt =====
-- Two ciphertexts and their proof, stored by a provider that fails once.
use zee_k_verifier.Prelude.{
  ℕ, ◌+◌, List, [], ◌∷◌, Option, none, some, ok, err, Bytes, Text, codes, ◌≡◌, refl, arith, ◌==◌,
  if◌then◌else◌,
}
use zee_k_verifier.Config.{RetryConfig}
use zee_k_verifier.Samples.Bincode.{ct_codec, proof_codec}
use zee_k_verifier.Storage.Errors.{network, StorageResult}
use zee_k_verifier.Storage.Objects.{ct_to_bytes}
use zee_k_verifier.Storage.Manager.{StorageProvider, CtData, Request, ct_of, ct_upload}
use zee_k_verifier.Storage.Manager.Join.{Calls, store_proof_and_cts}
use zee_k_verifier.Storage.Manager.Laws.{store_proof_and_cts_ends}
use zee_k_verifier.Storage.Retry.{Run, retry_operation, retry_loop, after_error}
use zee_k_verifier.Storage.Manager.{Upload, store_with_retry}

abbrev config : RetryConfig
config = record { max_retries = 1; initial_delay_ms = 100; max_delay_ms = 1000 }

-- The world counts the calls; the second fails.
abbrev flaky : StorageProvider ℕ
flaky = record {
  upload =
      λ key payload metadata base dynamic n. (if n == 1 then err (network []) else ok tt, n + 1);
  backend_name = codes "mock";
  probe = λ n. (ok tt, n);
}

abbrev request : Request
request = record {
  account_addr = [];
  security_zone = 1;
  chain_id = 84532;
  contract_addr = [];
  timestamp = [];
}

abbrev cts : List CtData
cts =
    record { ct_hash = b'a' ∷ []; ct_bytes = 1 ∷ []; ct_type = 2 }
    ∷ record { ct_hash = b'b' ∷ []; ct_bytes = 2 ∷ []; ct_type = 2 }
    ∷ []

-- The proof goes first, the second ciphertext is tried twice.
abbrev order : List ℕ
order = 2 ∷ 1 ∷ 0 ∷ 0 ∷ 0 ∷ 0 ∷ []

abbrev hash : Bytes → Text
hash b = b

abbrev print : List Text → Text
print ts = []

abbrev run : Option (StorageResult Text × Calls × ℕ)
run = store_proof_and_cts config flaky hash print ct_codec proof_codec request (7 ∷ []) cts order 0

abbrev log : Calls
log = elim run [ none ↦ [] | some end ↦ end.1 ]

store_proof_and_cts_ends_example :
    (result : StorageResult Text) × (log : Calls) × (w' : ℕ) × (store_proof_and_cts config flaky
        hash print ct_codec proof_codec request
        (7 ∷ [])
        cts
        order
        0
      ≡ some (result, log, w'))
store_proof_and_cts_ends_example =
    store_proof_and_cts_ends hash print ct_codec proof_codec request (7 ∷ []) config flaky cts order
      0 (omega arith) (omega arith)

abbrev upload : Upload
upload =
    ct_of hash print ct_codec proof_codec request (7 ∷ []) 0
      (record { ct_hash = b'a' ∷ []; ct_bytes = 1 ∷ []; ct_type = 2 })

-- An upload alone, whose first call fails: it is called again and lands.
alone :
    (run : Run ℕ) × (store_with_retry flaky config upload 1 ≡ some run)
    × (run.result ≡ ok tt)
    × (run.world ≡ 3)
unfolding store_with_retry retry_operation retry_loop after_error ct_upload ct_to_bytes
alone = (_, refl, refl, refl)
