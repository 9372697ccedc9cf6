-- ===== src/Launcher/Material.antt =====
-- What the launcher has checked of the key material that it hands to the server.
use zee_k_verifier.Prelude.{
  ◌≤◌, [], length, some, ok, map_err, Bytes, Text, codes, All, ◌==◌, ◌≡◌, refl, sym, ap, ◌∙◌, subst,
  inl, inr, Bool-cases, ==_iff, >>=-eq-ok, map_err-eq-ok, ok-injective, err-ne-ok,
}
use zee_k_verifier.Config
use zee_k_verifier.Config.Builder.{from_baked, build_config}
use zee_k_verifier.Extern.Crypto.{Crypto}
use zee_k_verifier.Extern.Tfhe.{Tfhe}
use zee_k_verifier.Extern.TfheKeys.{TfheKeys}
use zee_k_verifier.Extern.Download.{Reader}
use zee_k_verifier.Extern.CofheKeys.{CofheKeys, IsCofheKeys, PublicMaterial, ReaderContext}
use zee_k_verifier.Keys.{KeyMaterial, Artifacts, deserialize_tfhe_artifacts}
use zee_k_verifier.Launcher.Source.{Config, env_overlay, sibling_object, from_env, partner_accesses}
use zee_k_verifier.Launcher.Boot.{
  Host, download_bytes, partner_tokens, assemble, reconstruct_signer, artifact, runtime_config,
  fetched_artifacts, assembled, prepared,
}
use zee_k_verifier.Launcher.Accesses.{IsFederated, accesses-IsFederated}
use zee_k_verifier.Launcher.Resolved.{IsResolved, from_env-IsResolved}

module _ (c : Crypto) (t : Tfhe) (tk : TfheKeys t) (k : CofheKeys) (host : Host)
    (sha256 : Bytes → Bytes) where
  -- Artifacts that are parsed from bytes with the digests of the manifest.
  pub record AreChecked (public : PublicMaterial) (artifacts : Artifacts t tk) : Type 0 where
    pub crs_bytes : Bytes
    pub pk_bytes : Bytes
    pub sk_bytes : Bytes
    pub crs_digest : sha256 crs_bytes ≡ public.crs_digest
    pub pk_digest : sha256 pk_bytes ≡ public.compact_public_key_digest
    pub sk_digest : sha256 sk_bytes ≡ public.server_key_digest
    pub parsed : deserialize_tfhe_artifacts t tk crs_bytes pk_bytes sk_bytes ≡ ok artifacts

  -- A signing key that is a share of 32 bytes, reconstructed from at least as many partners as the
  -- threshold says, each federated.
  pub record IsReconstructed (cfg : Config) (signer_pk : c.SigningKey) : Type 0 where
    pub share : Bytes
    pub length_share : length share ≡ 32
    pub signer : c.from_slice share ≡ ok signer_pk
    pub ctx : ReaderContext
    pub read :
        k.read_zk_signer ctx
          (partner_accesses cfg.partners (partner_tokens k host cfg.partners []))
          cfg.threshold
          cfg.share_version
        ≡ ok share
    pub federated :
        All
          (IsFederated k host)
          (partner_accesses cfg.partners (partner_tokens k host cfg.partners []))
    pub enough :
        cfg.threshold
        ≤ length (partner_accesses cfg.partners (partner_tokens k host cfg.partners []))

  -- The keys and the configuration that are handed on.
  pub record AreMade (cfg : Config) (public : PublicMaterial) (signer_pk : c.SigningKey)
      (config : Config.Config) (keys : KeyMaterial c t) : Type 0 where
    pub artifacts : Artifacts t tk
    pub checked : AreChecked public artifacts
    pub crs : keys.crs ≡ artifacts.crs
    pub pk : keys.pk ≡ artifacts.pk
    pub sk : keys.sk ≡ artifacts.sk
    pub signer : keys.signer_pk ≡ signer_pk
    pub expected : keys.expected_signer_address ≡ some public.zk_signer_address
    pub endpoint : config.store_cts.endpoint ≡ cfg.store_cts_endpoint

  pub record IsPrepared (config : Config.Config) (keys : KeyMaterial c t) : Type 0 where
    pub cfg : Config
    pub signer_pk : c.SigningKey
    pub public : PublicMaterial
    pub resolved : IsResolved k host.vars cfg
    pub reconstructed : IsReconstructed cfg signer_pk
    pub made : AreMade cfg public signer_pk config keys

  assemble-eq-ok :
      (share : Bytes) (signer : c.SigningKey)
      → assemble c share ≡ ok signer
      → (length share ≡ 32) × (c.from_slice share ≡ ok signer)
  unfolding assemble
  assemble-eq-ok share signer e = elim (Bool-cases (length share == 32)) [
    | inl fits ↦ ((==_iff _ _).0 fits, map_err-eq-ok _ _ (rw fits at e))
    | inr other ↦ absurd (err-ne-ok (rw other at e))
  ]

  module _ (laws : IsCofheKeys k sha256) where
    reconstruct_signer-IsReconstructed :
        (cfg : Config) (gcs_token : Text) (signed : c.SigningKey × PublicMaterial)
        → reconstruct_signer c k cfg (partner_tokens k host cfg.partners []) gcs_token ≡ ok signed
        → IsReconstructed cfg signed.0
    unfolding reconstruct_signer
    reconstruct_signer-IsReconstructed cfg gcs_token signed e =
        let (share, read, e1) = >>=-eq-ok (map_err _ (k.read_zk_signer _ _ _ _)) _ e in
        let (signer, assembled, e2) = >>=-eq-ok (assemble c share) _ e1 in
        let (public_bytes, _, e3) = >>=-eq-ok (map_err _ (k.read_public _ _ _)) _ e2 in
        let (public, _, pair) = >>=-eq-ok (map_err _ (k.from_canonical_bytes public_bytes)) _ e3 in
        let same : ◌≡◌ {A = c.SigningKey × PublicMaterial} (signer, public) signed =
          ok-injective pair in
        let (fits, keyed) = assemble-eq-ok share signer assembled in
        record {
          share = share;
          length_share = fits;
          signer = keyed ∙ ap (λ (s : c.SigningKey × PublicMaterial). ok s.0) same;
          ctx = _;
          read = map_err-eq-ok _ _ read;
          federated = accesses-IsFederated k host cfg.partners;
          enough = laws.enough _ _ _ _ share (map_err-eq-ok _ _ read);
        }

    artifact-digest :
        (storage : Reader) (cfg : Config) (object name : Text) (digest bytes : Bytes)
        → artifact k storage cfg object name digest ≡ ok bytes
        → sha256 bytes ≡ digest
    unfolding artifact
    artifact-digest storage cfg object name digest bytes e =
        let (content, _, e1) =
          >>=-eq-ok
            (map_err _
              (download_bytes storage cfg.public_bucket (sibling_object cfg.public_object object)))
            _ e in
        let (_, passed, same) = >>=-eq-ok (k.verify_artifact content digest name) _ e1 in
        ap sha256 (sym (ok-injective same)) ∙ laws.digest content digest name passed

    runtime_config-endpoint :
        (cfg : Config) (config : Config.Config)
        → runtime_config host cfg ≡ ok config
        → config.store_cts.endpoint ≡ cfg.store_cts_endpoint
    unfolding runtime_config
    runtime_config-endpoint cfg config e =
        let (overlay, _, e1) = >>=-eq-ok (env_overlay host.debug host.include_str cfg.env) _ e in
        let (made, _, same) =
          >>=-eq-ok
            (map_err _ (
              build_config host.merge host.exists
                (from_baked (host.include_str (codes "envs/base.toml")) overlay)))
            _ e1 in
        sym (ap (λ (x : Config.Config). x.store_cts.endpoint) (ok-injective same))

    fetched_artifacts-AreChecked :
        (storage : Reader) (cfg : Config) (public : PublicMaterial) (artifacts : Artifacts t tk)
        → fetched_artifacts t tk k storage cfg public ≡ ok artifacts
        → AreChecked public artifacts
    unfolding fetched_artifacts
    fetched_artifacts-AreChecked storage cfg public artifacts e =
        let (crs_bytes, crs_there, e1) =
          >>=-eq-ok (artifact k storage cfg (codes "crs") (codes "crs") public.crs_digest) _ e in
        let (pk_bytes, pk_there, e2) =
          >>=-eq-ok
            (artifact k storage cfg (codes "public_key") (codes "public_key")
              public.compact_public_key_digest)
            _ e1 in
        let (sk_bytes, sk_there, e3) =
          >>=-eq-ok
            (artifact k storage cfg (codes "computation_key") (codes "computation_key")
              public.server_key_digest)
            _ e2 in
        record {
          crs_bytes = crs_bytes;
          pk_bytes = pk_bytes;
          sk_bytes = sk_bytes;
          crs_digest = artifact-digest storage cfg _ _ public.crs_digest crs_bytes crs_there;
          pk_digest =
              artifact-digest storage cfg _ _ public.compact_public_key_digest pk_bytes pk_there;
          sk_digest = artifact-digest storage cfg _ _ public.server_key_digest sk_bytes sk_there;
          parsed = map_err-eq-ok _ _ e3;
        }

    assembled-AreMade :
        (cfg : Config) (signed : c.SigningKey × PublicMaterial) (config : Config.Config)
        (keys : KeyMaterial c t)
        → assembled c t tk k host cfg signed ≡ ok (config, keys)
        → AreMade cfg signed.1 signed.0 config keys
    unfolding assembled
    assembled-AreMade cfg signed config keys e =
        let (zk_config, configured, e1) = >>=-eq-ok (runtime_config host cfg) _ e in
        let (storage, _, e2) = >>=-eq-ok (map_err _ host.storage) _ e1 in
        let (artifacts, there, pair) =
          >>=-eq-ok (fetched_artifacts t tk k storage cfg signed.1) _ e2 in
        subst (λ (x : Config.Config × KeyMaterial c t). AreMade cfg signed.1 signed.0 x.0 x.1)
          (ok-injective pair)
          (record {
            artifacts = artifacts;
            checked = fetched_artifacts-AreChecked storage cfg signed.1 artifacts there;
            crs = refl;
            pk = refl;
            sk = refl;
            signer = refl;
            expected = refl;
            endpoint = runtime_config-endpoint cfg zk_config configured;
          })

    pub prepared-IsPrepared :
        (config : Config.Config) (keys : KeyMaterial c t)
        → prepared c t tk k host ≡ ok (config, keys)
        → IsPrepared config keys
    unfolding prepared
    prepared-IsPrepared config keys e =
        let (_, _, e1) = >>=-eq-ok host.tls_provider _ e in
        let (_, _, e2) = >>=-eq-ok host.log_filter _ e1 in
        let (cfg, resolved, e3) = >>=-eq-ok (from_env k host.vars) _ e2 in
        let (gcs_token, _, e4) = >>=-eq-ok k.metadata_token _ e3 in
        let (signed, signs, made) =
          >>=-eq-ok (reconstruct_signer c k cfg (partner_tokens k host cfg.partners []) gcs_token) _
            e4 in
        record {
          cfg = cfg;
          signer_pk = signed.0;
          public = signed.1;
          resolved = from_env-IsResolved k host.vars cfg resolved;
          reconstructed = reconstruct_signer-IsReconstructed cfg gcs_token signed signs;
          made = assembled-AreMade cfg signed config keys made;
        }
