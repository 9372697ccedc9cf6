-- ===== src/Server/Laws.antt =====
-- What a boot that opens a port has checked.
use zee_k_verifier.Prelude.{
  Bool, true, false, List, [], ◌∷◌, Option, none, some, Result, ok, err, map_err, ok_or, Bytes,
  Text, decimal, to_ascii_lowercase, ◌≡◌, ◌⊎◌, refl, ap, ◌∙◌, subst, inl, inr, Result-cases,
  >>=-eq-ok, map_err-eq-ok, ok_or-eq-ok, ok-injective,
}
use zee_k_verifier.Config.{Config, StorageConfig, validate}
use zee_k_verifier.Extern.Hex.{Hex}
use zee_k_verifier.Extern.Crypto.{Crypto, IsCrypto}
use zee_k_verifier.Extern.Tfhe.{Tfhe}
use zee_k_verifier.Extern.Bucket.{Client}
use zee_k_verifier.Extern.PublicKeys.{PublicKeys, IsPublicKeys}
use zee_k_verifier.Signing.Signer.{SigningError}
use zee_k_verifier.Storage.Errors.{StorageResult, display}
use zee_k_verifier.Storage.Gcs.{GcsStorage, from_config}
use zee_k_verifier.Keys.{KeyMaterial}
use zee_k_verifier.Keys.Laws.{
  address_of, verify_signer_matches_address_iff, verify_signer_matches_pubkey_sound,
}
use zee_k_verifier.Server.{
  Recorder, Step, binds, installs, reports_up, publishes_error_counters,
  publishes_storage_error_counters, spawns_health, serves, Machine, recorder, address, AppState,
  check_signer, checked, new_state, published, opened, with_backend, after_checks, run_server,
}

-- A boot that serves has done this last.
unfoldable pub does_serve : List Step → Bool
does_serve [] = false
does_serve (serves ∷ steps) = true
does_serve (_ ∷ steps) = does_serve steps

-- All the steps of a boot that serves.
unfoldable pub all_steps : Config → Recorder → List Step
unfolding decimal
all_steps config which =
    binds (address config.server.bind_address config.server.bind_port)
    ∷ installs which
    ∷ reports_up
    ∷ publishes_error_counters
    ∷ publishes_storage_error_counters
    ∷ spawns_health config.store_cts.endpoint config.health.probe_interval_secs
    ∷ binds (address config.server.bind_address config.server.metrics_port)
    ∷ serves
    ∷ []

module _ (h : Hex) (c : Crypto) (t : Tfhe) where
  -- The answer of a boot that has passed its checks: all the steps, or an error and nothing served.
  abbrev pub Ends :
      Machine → Config → AppState h c t → Result Text (AppState h c t) → List Step → Type 0
  Ends machine config state result steps =
      ((result ≡ ok state)
        × (steps ≡ all_steps config (recorder config.metrics.push machine.pipeline)))
      ⊎ ((e : Text) × (result ≡ err e) × (does_serve steps ≡ false))

  published_lem :
      (machine : Machine) (config : Config) (state : AppState h c t)
      (installed : Result Text (Unit {0})) (which : Recorder)
      → let (result, steps) = published h c t machine config state installed which in
        ((result ≡ ok state)
          × (binds (address config.server.bind_address config.server.bind_port)
                ∷ installs which
                ∷ steps
              ≡ all_steps config which))
        ⊎ ((e : Text) × (result ≡ err e) × (does_serve steps ≡ false))
  unfolding published all_steps does_serve
  published_lem machine config state (err e) which = inr (_, refl, refl)
  published_lem machine config state (ok _) which = elim (Result-cases machine.bind_metrics) [
    | inl (_, bound) ↦ rw bound (inl (refl, refl))
    | inr (e, refused) ↦ rw refused (inr (e, refl, refl))
  ]

  opened-Ends :
      (machine : Machine) (config : Config) (state : AppState h c t)
      (bound : Result Text (Unit {0}))
      → let (result, steps) = opened h c t machine config state bound in
        Ends machine config state result
          (binds (address config.server.bind_address config.server.bind_port) ∷ steps)
  unfolding opened does_serve
  opened-Ends machine config state (err e) = inr (e, refl, refl)
  opened-Ends machine config state (ok _) =
      published_lem machine config state
        (machine.install (recorder config.metrics.push machine.pipeline))
        (recorder config.metrics.push machine.pipeline)

module _ (h : Hex) (c : Crypto) (t : Tfhe) (points : PublicKeys c) where
  -- The key's identity is the published one: its address up to the case of letters, or the point of
  -- the published file where no address is expected.
  abbrev pub IsPublished : Machine → Config → c.SigningKey → Option Text → Type 0
  IsPublished machine config k (some addr) =
      to_ascii_lowercase (address_of h c k) ≡ to_ascii_lowercase addr
  IsPublished machine config k none =
      (bytes : Bytes) × (machine.read config.keys.signer_pubkey_path ≡ ok bytes)
      × (points.from_sec1_bytes bytes ≡ ok (c.verifying_key k))

  module _ {W : Type 0} (built : Result Text (Client W)) where
    -- The checks have passed, and the storage has answered its start-up probe.
    pub record IsReady (machine : Machine) (config : Config) (keys : KeyMaterial c t) (w w' : W)
        (backend : GcsStorage) (storage_config : StorageConfig) : Type 0 where
      pub identity : IsPublished machine config keys.signer_pk keys.expected_signer_address
      pub configured : config.storage ≡ some storage_config
      pub valid : validate storage_config ≡ ok tt
      pub probed : from_config built display storage_config w ≡ (ok backend, w')

  module _ (shown : SigningError → Text) (laws : IsCrypto c)
      (points_laws : IsPublicKeys points) where
    check_signer-IsPublished :
        (machine : Machine) (config : Config) (k : c.SigningKey) (expected : Option Text)
        → check_signer h c t points shown machine config k expected ≡ ok tt
        → IsPublished machine config k expected
    unfolding check_signer
    check_signer-IsPublished machine config k (some addr) e =
        (verify_signer_matches_address_iff h c laws shown k addr).0 e
    check_signer-IsPublished machine config k none e =
        verify_signer_matches_pubkey_sound h c laws shown points points_laws machine.read k
          config.keys.signer_pubkey_path e

    checked-eq-ok :
        (machine : Machine) (config : Config) (keys : KeyMaterial c t) (sc : StorageConfig)
        → checked h c t points shown machine config keys ≡ ok sc
        → IsPublished machine config keys.signer_pk keys.expected_signer_address
          × (config.storage ≡ some sc)
          × (validate sc ≡ ok tt)
    unfolding checked
    checked-eq-ok machine config keys sc e =
        let (_, matches, e1) =
          >>=-eq-ok
            (check_signer h c t points shown machine config keys.signer_pk
              keys.expected_signer_address)
            _ e in
        let (found, there, e2) = >>=-eq-ok (ok_or _ config.storage) _ e1 in
        let (_, valid, e3) = >>=-eq-ok (map_err _ (validate found)) _ e2 in
        let same : found ≡ sc = ok-injective e3 in
        (
          check_signer-IsPublished machine config keys.signer_pk keys.expected_signer_address
              matches,
          ok_or-eq-ok _ config.storage there ∙ ap some same,
          subst (λ x. validate x ≡ ok tt) same (map_err-eq-ok _ _ valid),
        )

    module _ {W : Type 0} (built : Result Text (Client W)) (machine : Machine) (config : Config)
        (keys : KeyMaterial c t) (w : W) where
      -- A boot is refused before it does anything, or it has passed every check.
      abbrev Boots : Result Text (AppState h c t) × List Step × W → Type 0
      Boots run =
          ((e : Text) × (run.0 ≡ err e) × (run.1 ≡ []))
          ⊎ ((sc : StorageConfig) × (backend : GcsStorage) × IsReady built machine config keys w
                run.2 backend sc
              × Ends h c t machine config (new_state h c t machine config keys sc backend) run.0
                  run.1)

      with_backend-Boots :
          (sc : StorageConfig) (answer : StorageResult GcsStorage × W)
          → checked h c t points shown machine config keys ≡ ok sc
          → from_config built display sc w ≡ answer
          → Boots (with_backend h c t built machine config keys sc answer)
      unfolding with_backend
      with_backend-Boots sc (err e, w') passed probed = inl (display e, refl, refl)
      with_backend-Boots sc (ok backend, w') passed probed =
          let (identity, configured, valid) = checked-eq-ok machine config keys sc passed in
          inr (
            sc,
            backend,
            record { identity = identity; configured = configured; valid = valid; probed = probed },
            opened-Ends h c t machine config (new_state h c t machine config keys sc backend)
                machine.bind_api,
          )

      after_checks-Boots :
          (answer : Result Text StorageConfig)
          → checked h c t points shown machine config keys ≡ answer
          → Boots (after_checks h c t built machine config keys answer w)
      unfolding after_checks
      after_checks-Boots (err e) passed = inl (e, refl, refl)
      after_checks-Boots (ok sc) passed = with_backend-Boots sc _ passed refl

      -- By the laws of the curve library, a boot of the server opens no port, installs no recorder and
      -- starts no health loop unless the signing key is the published one (its address is the expected
      -- one up to the case of letters, or, where none is expected, its point is the one in the published
      -- file), a valid storage section is configured, and the storage has answered the start-up probe.
      -- It then serves the state made of the keys, the storage and the configuration after all its steps
      -- in order, with the push pipeline's recorder only if push is on and the pipeline was built; or it
      -- returns an error and has not served.
      pub run_server-Boots :
          (result : Result Text (AppState h c t)) (steps : List Step) (w' : W)
          → run_server h c t points shown built machine config keys w ≡ (result, steps, w')
          → ((e : Text) × (result ≡ err e) × (steps ≡ []))
            ⊎ ((sc : StorageConfig) × (backend : GcsStorage) × IsReady built machine config keys w
                  w' backend sc
                × Ends h c t machine config
                    (new_state h c t machine config keys sc backend)
                    result
                    steps)
      unfolding run_server
      run_server-Boots result steps w' e = subst Boots e (after_checks-Boots _ refl)
