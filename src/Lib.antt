-- ===== src/Lib.antt =====
-- The zk-verifier service: it checks a proof over a packed list of ciphertexts, expands the list,
-- commits to each ciphertext, signs the batch, stores it, and answers with the signature.
--
-- The parts, and the files that model them:
--   Prelude     lists, results, strings and decimal numbers, as the code uses Rust's.
--   Extern      the crates that the code calls: hex, sha3 and k256 (Crypto), tfhe (Tfhe), bincode
--               (Codec), the client of Google Cloud Storage (Bucket, Download), key files and points
--               (TfheKeys, PublicKeys), std::fs (FileSystem), cofhe-keys (CofheKeys) and
--               opentelemetry-proto (Otlp). Each is a record of operations, most beside a record of
--               documented laws. A `[u8]`, a `Vec<u8>` and a UTF-8 `String` are lists of numbers.
--   Samples     small concrete crates that meet those laws, for the tests.
--   Signing     rust-common/src/signing. Message is SigningMessageBuilder and the trait
--               SigningEncode (a value of the data type is a value of one of its instances);
--               Signer is Signer, SignatureVFormat and EvmAddress.
--   CtSigner    zk-verifier/src/signer/ecdsa.rs: ct_message_hash and sign_batch. Messages says
--               that the messages determine their fields, Binding that the hashes do.
--   Verifier    zk-verifier/src/verifier: Expander is traits.rs over rust-common/src/safe_serde.rs,
--               Errors is error.rs; verify_and_expand and verify_and_sign_batch are the functions
--               of these names in mod.rs, with a `?` for each bind. The loop over the expanded
--               list is expand_from, with the rounds left as its fuel: the length of the list.
--   Config      zk-verifier/src/config.rs: the data, the defaults, the validation; Builder is the
--               type of that name, whose build merges a list of layers, the later over the earlier.
--   Storage     zk-verifier/src/storage. Errors is errors.rs, Objects is types.rs. Paths holds
--               generate_object_key of gcs.rs and build_base_path of storage_manager.rs, Gcs the
--               rest of gcs.rs. Retry is retry_operation of storage_manager.rs; its fuel is one
--               round for the first attempt and one for each retry. Manager is what
--               store_proof_and_cts uploads, and Join the uploads run at once: a schedule is a
--               list of places among the unfinished uploads, each a turn of one attempt.
--   Api         zk-verifier/src/api/mod.rs. Address is canonical_contract_address, Hash is
--               adjust_hash_for_metadata, StoreCts is store_cts_internally_retryable (by recursion
--               on the retries left), Persist is persist_cts and Batch the handler
--               verify_and_sign_batch, built with the features external-storage and store-cts.
--               Gate is the pair of semaphores and the in-flight gauge over all requests: a run is
--               a list of events, each of one request.
--   Health      zk-verifier/src/health.rs: probes, verdict, publish and the loop of spawn, a round
--               for each pair of timed replies. Log is about the lines that it writes, and Changes
--               holds what they say.
--   Audit       zk-verifier/scripts/verify_stored_ct.rs, a program that shares no code with the
--               service but repeats some of it. Layouts reads stored objects, Fetch finds them,
--               Proof verifies, Run is run_verification with load_keys, Main is main. The loops
--               go over the two prefixes, the chunks of a download and the expanded list.
--   Keys        zk-verifier/src/keys.rs and lib.rs with rust-common/src/keygen.rs: the key material
--               and how it is read or made. Match is signer/pubkey_match.rs, Derive the tool
--               zk-verifier/scripts/derive_signer_pubkey.rs.
--   Server      zk-verifier/src/server.rs, with AppState::new: run_server, whose effects are a list
--               of steps on the machine. Local is the entry point main.rs.
--   Launcher    tdx-signer/src: Source is Config::from_env and the helpers at the top of main.rs,
--               Attestation is attestation.rs, Boot is main with key_source.rs and gcs.rs, which
--               ends in run_server. The loops go over the partners and the chunks of a download;
--               trimming takes the length of the text as its fuel, a byte at least in each round.
--   Telemetry   zk-verifier/src/otel_split.rs. Split is split_request with its nested loops over the
--               resources, scopes and metrics; the inner loop has the points of its metric as fuel.
--               Rows is a request seen as its points, Parts and Loop say what the loops keep. Push
--               is the part of otel_push.rs that talks to servers, Sending what a success means.
--
-- The code's effects are explicit: a world that the operations pass on, a log of the calls of the
-- storage provider, a list of the counters and the sleeps of the retry loop.
--
-- Integers are natural numbers with the width of the code's where it matters: the attempts of a
-- retry wrap at 2^32 and the doubled delay at 2^64.
--
-- Not modelled: log lines but those of Health, durations and sizes in histograms, since no result
-- depends on them; the HTTP routes and the serde attributes; the exporter that otel_push.rs builds,
-- telemetry.rs and logger.rs; mock_keys.rs; the command-line clients that load or smoke test the
-- service. The two futures of persist_cts act on different services, so each has a world of its own.
-- An upload that is dropped while its request is on the way is not told apart from one never sent. A
-- boot is modelled up to the moment it serves, not how the listeners end.
pub mod Prelude
pub mod Extern
pub mod Samples
pub mod Config
pub mod Signing
pub mod CtSigner
pub mod Verifier
pub mod Storage
pub mod Api
pub mod Health
pub mod Audit
pub mod Keys
pub mod Server
pub mod Launcher
pub mod Telemetry
