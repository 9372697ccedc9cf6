-- ===== src/Launcher/Tests.antt =====
-- The launcher on concrete texts, and its theorem at a launch that serves.
use zee_k_verifier.Prelude.{
  [], ◌∷◌, ◌++◌, length, replicate, some, Result, ok, err, false, Text, Bytes, codes, List, ltb,
  text_eq, if◌then◌else◌, ◌≡◌, refl, ℕ,
}
use zee_k_verifier.Extern.Download.{streamed}
use zee_k_verifier.Extern.CofheKeys.{CofheKeys, PartnerRef, PartnerAccess, PublicMaterial}
use zee_k_verifier.Samples.HexCrate
use zee_k_verifier.Samples.CryptoCrate
use zee_k_verifier.Samples.TfheCrate
use zee_k_verifier.Samples.Machine.{points, key_files, client, machine, config}
use zee_k_verifier.Config.Builder.{from_baked, build_config}
use zee_k_verifier.Storage.Gcs.{from_config, new as gcs_new}
use zee_k_verifier.Keys.Laws.{address_of}
use zee_k_verifier.Server.{AppState, Step}
use zee_k_verifier.Launcher.Attestation.{received, token_of}
use zee_k_verifier.Launcher.Source.{sibling_object, key_hash, partner_accesses}
use zee_k_verifier.Launcher.Boot.{Host, main}

sibling :
    (sibling_object (codes "v1/public/manifest") (codes "crs") ≡ codes "v1/public/crs")
    × (sibling_object (codes "manifest") (codes "crs") ≡ codes "crs")
unfolding sibling_object codes
sibling = (refl, refl)

shown_hash : key_hash (136 ∷ 30 ∷ 182 ∷ 2 ∷ 255 ∷ []) ≡ codes "881eb602"
unfolding key_hash codes
shown_hash = refl

tokens :
    (token_of (codes "HTTP/1.0 200 OK\r\nA: b\r\n\r\n jwt\n") ≡ ok (codes "jwt"))
    × (token_of (codes "HTTP/1.0 200 OK\r\nA: b")
        ≡ err (codes "malformed HTTP response (no body separator)"))
    × (token_of (codes "HTTP/1.0 500 no\r\n\r\n")
        ≡ err (codes "teeserver returned: HTTP/1.0 500 no"))
    × (token_of (128 ∷ []) ≡ err (codes "attestation response not UTF-8"))
unfolding token_of codes
tokens = (refl, refl, refl, refl)

abbrev partner : Text → Text → PartnerRef
unfolding codes
partner project audience = record {
  project_id = project;
  secret_id = codes "s";
  wip_audience = audience;
}

-- The first token of a project counts, and a partner without one is left out.
accesses :
    partner_accesses
      (partner (codes "a") [] ∷ partner (codes "b") [] ∷ [])
      ((codes "b", codes "1") ∷ (codes "b", codes "2") ∷ [])
    ≡ record { partner = partner (codes "b") []; sm_token = codes "1" } ∷ []
unfolding partner_accesses codes
accesses = refl

-- The baked layers keep the environment and the file out.
baked_layers :
    build_config {A = ℕ} (λ layers. ok (length layers)) (λ path. false) (from_baked [] []) ≡ ok 11
unfolding build_config from_baked codes
baked_layers = refl

-- Two partners of two projects; a share of the key 7 for those who meet the threshold; a digest
-- that is the artifact itself.
abbrev sha256 : Bytes → Bytes
sha256 bytes = bytes

check_digest : Bytes → Bytes → Result Text (Unit {0})
unfolding text_eq
check_digest bytes digest = if text_eq bytes digest then ok tt else err []

read_shares : List PartnerAccess → ℕ → Result Text Bytes
read_shares accesses threshold =
    if ltb (length accesses) threshold then err [] else ok (replicate 32 7)

abbrev published : PublicMaterial
unfolding codes
published = record {
  crs_digest = codes "v1/crs";
  compact_public_key_digest = codes "v1/public_key";
  server_key_digest = codes "v1/computation_key";
  zk_signer_address = address_of HexCrate.sample CryptoCrate.sample 7;
}

abbrev cofhe_keys : CofheKeys
unfolding codes
cofhe_keys = record {
  lookup = λ name. ok (record {
    shamir_threshold = 2;
    public_bucket = codes "p";
    manifest_object = codes "v1/manifest";
    share_version = 1;
  });
  partner_refs = λ baked service secret.
      ok (partner (codes "a") (codes "x") ∷ partner (codes "b") (codes "y") ∷ []);
  min_threshold = 2;
  exchange = λ audience jwt. ok (audience ++ jwt);
  metadata_token = ok (codes "m");
  read_zk_signer = λ ctx accesses threshold version. read_shares accesses threshold;
  read_public = λ token bucket object. ok [];
  from_canonical_bytes = λ bytes. ok published;
  verify_artifact = λ bytes digest name. check_digest bytes digest;
}

abbrev host : Host
unfolding codes
host = record {
  tls_provider = ok tt;
  log_filter = ok tt;
  vars = λ key. some (codes "testnet");
  json_string = λ s. s;
  debug = λ s. s;
  socket = λ request. received (codes "HTTP/1.0 200 OK\r\n\r\njwt");
  include_str = λ path. path;
  merge = λ layers. ok config;
  exists = λ path. false;
  storage = ok (λ bucket object. streamed (ok object ∷ []));
}

abbrev launch :
    Host
    → Result Text (AppState HexCrate.sample CryptoCrate.sample TfheCrate.sample)
      × List Step
      × Unit {0}
launch host =
    main CryptoCrate.sample TfheCrate.sample HexCrate.sample points (λ e. []) machine (ok client)
      key_files cofhe_keys host tt

running : Unit {0}
unfolding main codes config CryptoCrate.from_slice CryptoCrate.keccak256 HexCrate.encode
    check_digest read_shares from_config gcs_new
running = tt

abbrev served :
    (state : AppState HexCrate.sample CryptoCrate.sample TfheCrate.sample) × (steps : List Step)
    × (launch host ≡ (ok state, steps, tt))
unfolding running
served = (_, _, refl)
