-- ===== src/Launcher/Boot.antt =====
-- The boot (main of tdx-signer/src/main.rs, with key_source.rs and gcs.rs), up to and with the
-- server that it starts. Logging is left out; installing the TLS provider and the log filter are
-- two results that may end the boot at once.
use zee_k_verifier.Prelude.{
  ℕ, Bool, List, [], ◌∷◌, ◌++◌, Option, some, Result, ok, err, map_err, ◌>>=◌, Bytes, Text, codes,
  decimal, length, ◌==◌, if◌then◌else◌,
}
use zee_k_verifier.Config
use zee_k_verifier.Config.Builder.{from_baked, build_config, Source}
use zee_k_verifier.Extern.Hex.{Hex}
use zee_k_verifier.Extern.Crypto.{Crypto}
use zee_k_verifier.Extern.Tfhe.{Tfhe}
use zee_k_verifier.Extern.TfheKeys.{TfheKeys}
use zee_k_verifier.Extern.Bucket.{Client}
use zee_k_verifier.Extern.Download.{Download, refused, streamed, Reader}
use zee_k_verifier.Extern.PublicKeys.{PublicKeys}
use zee_k_verifier.Extern.CofheKeys.{CofheKeys, PartnerRef, PublicMaterial, ReaderContext}
use zee_k_verifier.Signing.Signer.{SigningError}
use zee_k_verifier.Keys.{KeyMaterial, Artifacts, deserialize_tfhe_artifacts}
use zee_k_verifier.Server.{Machine, AppState, Step, run_server}
use zee_k_verifier.Launcher.Attestation.{SocketReply, fetch_token}
use zee_k_verifier.Launcher.Source.{Config, from_env, partner_accesses, sibling_object, env_overlay}

-- `result.context("...")`, with the chain printed.
abbrev context : {A : Type 0} → Text → Result Text A → Result Text A
unfolding codes
context what tried = map_err (λ e. what ++ (codes ": " ++ e)) tried

-- `while let Some(chunk) = reader.next().await.transpose()?`
unfoldable pub body : Text → List (Result Text Bytes) → Bytes → Result Text Bytes
unfolding codes
body object [] bytes = ok bytes
body object (err e ∷ chunks) bytes =
    err (codes "reading body for " ++ (object ++ (codes ": " ++ e)))
body object (ok chunk ∷ chunks) bytes = body object chunks (bytes ++ chunk)

unfoldable pub downloaded : Text → Text → Download → Result Text Bytes
unfolding body codes
downloaded bucket object (refused e) = err (
    codes "GCS download request failed for gs://"
    ++ (bucket ++ (b'/' ∷ object ++ (codes ": " ++ e))))
downloaded bucket object (streamed chunks) = body object chunks []

-- `Gcs::download_bytes`
unfoldable pub download_bytes : Reader → Text → Text → Result Text Bytes
unfolding downloaded codes
download_bytes storage bucket object =
    downloaded bucket object (storage (codes "projects/_/buckets/" ++ bucket) object)

module _ (c : Crypto) where
  abbrev signer_key_len : ℕ
  signer_key_len = 32

  -- `key_source::assemble`: a share of another length is not padded to a key.
  unfoldable pub assemble : Bytes → Result Text c.SigningKey
  unfolding codes decimal
  assemble priv_bytes =
      if length priv_bytes == signer_key_len
      then map_err (λ e. codes "constructing SigningKey from zk_signer_priv: " ++ e)
          (c.from_slice priv_bytes)
      else err (codes "zk_signer_priv must be 32 bytes, got " ++ decimal (length priv_bytes))

-- The outside of a boot but for the crate `cofhe-keys`: the environment, the socket and the printers
-- of JSON strings and of `{:?}`, the compiled-in files, the `config` crate, the storage client of the boot.
pub record Host : Type 0 where
  pub tls_provider : Result Text (Unit {0})
  pub log_filter : Result Text (Unit {0})
  pub vars : Text → Option Text
  pub json_string : Text → Text
  pub debug : Text → Text
  pub socket : Text → SocketReply
  pub include_str : Text → Text
  pub merge : List Source → Result Text Config.Config
  pub exists : Text → Bool
  pub storage : Result Text Reader

module _ (k : CofheKeys) (host : Host) where
  -- One partner: a token of the launcher for its audience, exchanged for an access token.
  unfoldable pub federate : PartnerRef → Result Text Text
  unfolding fetch_token
  federate p = do
    jwt ← fetch_token host.json_string host.socket p.wip_audience
    k.exchange p.wip_audience jwt

  -- The loop over the partners: one that fails is left out.
  unfoldable pub partner_tokens : List PartnerRef → List (Text × Text) → List (Text × Text)
  unfolding federate
  partner_tokens [] tokens = tokens
  partner_tokens (p ∷ partners) tokens =
      partner_tokens partners
        (elim (federate p) [ ok token ↦ tokens ++ (p.project_id, token) ∷ [] | err e ↦ tokens ])

module _ (c : Crypto) (k : CofheKeys) where
  unfoldable pub reconstruct_signer :
      Config → List (Text × Text) → Text → Result Text (c.SigningKey × PublicMaterial)
  unfolding codes assemble partner_accesses
  reconstruct_signer cfg tokens gcs_token = do
    let ctx : ReaderContext = record {
      gcs_token = gcs_token;
      public_bucket = cfg.public_bucket;
      public_object = cfg.public_object;
    }
    share ← context (codes "reconstruct zk-signer across partners") (
        k.read_zk_signer ctx (partner_accesses cfg.partners tokens) cfg.threshold cfg.share_version)
    signer_pk ← assemble c share
    public_bytes ←
        context (codes "read public material")
          (k.read_public gcs_token cfg.public_bucket cfg.public_object)
    public ← context (codes "decode public material") (k.from_canonical_bytes public_bytes)
    ok (signer_pk, public)

-- One artifact: a sibling of the manifest, whose bytes have the digest that the manifest gives.
unfoldable pub artifact :
    CofheKeys → Reader → Config → (object name : Text) → Bytes → Result Text Bytes
unfolding codes download_bytes sibling_object
artifact k storage cfg object name digest = do
  bytes ←
      context (codes "downloading " ++ (object ++ codes " from GCS"))
        (download_bytes storage cfg.public_bucket (sibling_object cfg.public_object object))
  passed ← k.verify_artifact bytes digest name
  ok bytes

-- The baked configuration with what the environment adds to it.
unfoldable pub runtime_config : Host → Config → Result Text Config.Config
unfolding codes env_overlay from_baked build_config
runtime_config host cfg = do
  overlay ← env_overlay host.debug host.include_str cfg.env
  built ←
      map_err (λ e. codes "zk-verifier config build failed: " ++ e)
        (build_config host.merge host.exists
          (from_baked (host.include_str (codes "envs/base.toml")) overlay))
  ok (record built {
    store_cts = record { endpoint = cfg.store_cts_endpoint };
    metrics = record { push = built.metrics.push; env = some cfg.env };
  })

-- The three artifacts, each checked before the next is fetched, and parsed at the end.
unfoldable pub fetched_artifacts :
    (t : Tfhe) (tk : TfheKeys t)
    → CofheKeys
    → Reader
    → Config
    → PublicMaterial
    → Result Text (Artifacts t tk)
unfolding codes artifact deserialize_tfhe_artifacts
fetched_artifacts t tk k storage cfg public = do
  crs_bytes ← artifact k storage cfg (codes "crs") (codes "crs") public.crs_digest
  pk_bytes ←
      artifact k storage cfg (codes "public_key") (codes "public_key")
        public.compact_public_key_digest
  sk_bytes ←
      artifact k storage cfg (codes "computation_key") (codes "computation_key")
        public.server_key_digest
  map_err (λ e. codes "deserialize TFHE artifacts: " ++ e)
      (deserialize_tfhe_artifacts t tk crs_bytes pk_bytes sk_bytes)

module _ (c : Crypto) (t : Tfhe) (tk : TfheKeys t) (k : CofheKeys) (host : Host) where
  -- From the reconstructed signer on.
  unfoldable pub assembled :
      Config → c.SigningKey × PublicMaterial → Result Text (Config.Config × KeyMaterial c t)
  unfolding codes runtime_config fetched_artifacts
  assembled cfg signed = do
    zk_config ← runtime_config host cfg
    storage ← context (codes "building GCS client") host.storage
    artifacts ← fetched_artifacts t tk k storage cfg signed.1
    ok (
      zk_config,
      record {
        crs = artifacts.crs;
        pk = artifacts.pk;
        sk = artifacts.sk;
        signer_pk = signed.0;
        expected_signer_address = some signed.1.zk_signer_address;
      },
    )

  -- What is handed to the server.
  unfoldable pub prepared : Result Text (Config.Config × KeyMaterial c t)
  unfolding from_env partner_tokens reconstruct_signer assembled
  prepared = do
    tls ← host.tls_provider
    filter ← host.log_filter
    cfg ← from_env k host.vars
    gcs_token ← k.metadata_token
    signed ← reconstruct_signer c k cfg (partner_tokens k host cfg.partners []) gcs_token
    assembled cfg signed

module _ (c : Crypto) (t : Tfhe) (h : Hex) (points : PublicKeys c) (shown : SigningError → Text)
    (machine : Machine) {W : Type 0} (built : Result Text (Client W)) where
  -- The server is started on what was prepared, and its error is passed on.
  unfoldable pub started :
      Result Text (Config.Config × KeyMaterial c t)
      → W
      → Result Text (AppState h c t) × List Step × W
  unfolding codes run_server
  started (err e) w = (err e, [], w)
  started (ok (config, keys)) w =
      let (result, steps, w') = run_server h c t points shown built machine config keys w in
      (map_err (λ e. codes "zk-verifier server returned: " ++ e) result, steps, w')

  -- `main`
  unfoldable pub main :
      TfheKeys t → CofheKeys → Host → W → Result Text (AppState h c t) × List Step × W
  unfolding prepared started
  main tk k host w = started (prepared c t tk k host) w
