-- ===== src/Keys/Laws.antt =====
-- What the boot gate compares, and that a generated signer stays.
use zee_k_verifier.Prelude.{
  Option, Result, ok, err, map_err, Bytes, Text, codes, to_ascii_lowercase, text_eq, text_eq_sound,
  text_eq_refl, eq_ignore_ascii_case, ◌≡◌, ◌↔◌, refl, sym, ap, ◌∙◌, subst, inl, inr, Bool-cases,
  >>=-eq-ok, map_err-eq-ok, ok-injective, err-ne-ok, if◌then◌else◌,
}
use zee_k_verifier.Extern.Hex.{Hex}
use zee_k_verifier.Extern.Crypto.{Crypto, IsCrypto}
use zee_k_verifier.Extern.Tfhe.{Tfhe}
use zee_k_verifier.Extern.TfheKeys.{TfheKeys}
use zee_k_verifier.Extern.FileSystem.{FileSystem, IsFileSystem}
use zee_k_verifier.Extern.PublicKeys.{PublicKeys, IsPublicKeys}
use zee_k_verifier.Signing.Signer.{SigningError, from_bytes, evm_address}
use zee_k_verifier.Keys.{load_pk, saved, generated, load_signer_pk, require_generate_keys_env}
use zee_k_verifier.Keys.Match.{
  bound_address, verify_signer_matches_address, verify_signer_matches_pubkey,
}

-- The address of a key.
abbrev pub address_of : (h : Hex) (c : Crypto) → c.SigningKey → Text
address_of h c k = evm_address c h (record { signing_key = k })

module _ (h : Hex) (c : Crypto) (laws : IsCrypto c) (display : SigningError → Text) where
  pub bound_address-eq :
      (purpose : Text) (k : c.SigningKey)
      → bound_address h c display purpose k ≡ ok (address_of h c k)
  unfolding bound_address from_bytes
  bound_address-eq purpose k = rw (laws.from_slice-key_to_bytes k) refl

  -- The address gate passes exactly for the key whose address is the published one, up to the case
  -- of letters.
  pub verify_signer_matches_address_iff :
      (k : c.SigningKey) (published : Text)
      → (verify_signer_matches_address h c display k published ≡ ok tt)
        ↔ (to_ascii_lowercase (address_of h c k) ≡ to_ascii_lowercase published)
  unfolding verify_signer_matches_address eq_ignore_ascii_case
  verify_signer_matches_address_iff k published = rw (bound_address-eq (codes "check") k) (
    λ e.
        elim (Bool-cases
          (text_eq (to_ascii_lowercase (address_of h c k)) (to_ascii_lowercase published))) [
            | inl same ↦ text_eq_sound _ _ same
            | inr differ ↦ absurd (err-ne-ok (rw differ at e))
          ],
    λ e. rw (e, text_eq_refl (to_ascii_lowercase published)) refl,
  )

  -- The public key gate passes only for the key whose point the published file holds.
  pub verify_signer_matches_pubkey_sound :
      (points : PublicKeys c)
      → IsPublicKeys points
      → (read : Text → Result Text Bytes) (k : c.SigningKey) (path : Text)
      → verify_signer_matches_pubkey h c display points read k path ≡ ok tt
      → (bytes : Bytes) × (read path ≡ ok bytes)
        × (points.from_sec1_bytes bytes ≡ ok (c.verifying_key k))
  unfolding verify_signer_matches_pubkey
  verify_signer_matches_pubkey_sound points points_laws read k path e =
      let (bytes, reads, e1) = >>=-eq-ok (map_err _ (read path)) _ e in
      let (expected, parses, e2) = >>=-eq-ok (map_err _ (points.from_sec1_bytes bytes)) _ e1 in
      elim (Bool-cases (points.same_point (c.verifying_key k) expected)) [
        | inl same ↦ (
          bytes,
          map_err-eq-ok _ _ reads,
          map_err-eq-ok _ _ parses ∙ ap ok (sym ((points_laws.same_point_iff _ _).0 same)),
        )
        | inr differ ↦ absurd (err-ne-ok (rw differ at e2))
      ]

module _ (c : Crypto) (t : Tfhe) (k : TfheKeys t) {D : Type 0} (fs : FileSystem D)
    (laws : IsCrypto c) (disk : IsFileSystem fs) where
  abbrev Loaded : Type 0
  Loaded = Result Text c.SigningKey × D

  load_written :
      (key : c.SigningKey) (path : Text) (d d' : D)
      → fs.write path (c.key_to_bytes key) d ≡ (ok tt, d')
      → load_pk c t k fs path d' ≡ ok key
  unfolding load_pk
  load_written key path d d' w =
      rw (disk.read-write path (c.key_to_bytes key) d d' w, laws.from_slice-key_to_bytes key) refl

  saved-eq-ok :
      (random key : c.SigningKey) (written : Result Text (Unit {0}) × D) (d' : D)
      → saved c t k fs random written ≡ (ok key, d')
      → (random ≡ key) × (written ≡ (ok tt, d'))
  unfolding saved
  saved-eq-ok random key (ok tt, d) d' e =
      (ok-injective (ap (λ (l : Loaded). l.0) e), ap (λ (l : Loaded). (ok tt, l.1)) e)
  saved-eq-ok random key (err why, d) d' e = absurd (err-ne-ok (ap (λ (l : Loaded). l.0) e))

  generated-eq-ok :
      (allowed : Result Text (Unit {0})) (random key : c.SigningKey) (path : Text) (d d' : D)
      → generated c t k fs allowed random path d ≡ (ok key, d')
      → (random ≡ key) × (fs.write path (c.key_to_bytes random) d ≡ (ok tt, d'))
  unfolding generated
  generated-eq-ok (err why) random key path d d' e = absurd (err-ne-ok (ap (λ (l : Loaded). l.0) e))
  generated-eq-ok (ok _) random key path d d' e = saved-eq-ok random key _ d' e

  -- A key that has been loaded once, from the disk or made and saved, is what every later boot
  -- loads from the disk that it left, whatever the environment then is.
  pub load_signer_pk_again :
      (var var' : Option Text) (random random' key : c.SigningKey) (path : Text) (d d' : D)
      → load_signer_pk c t k fs var random path d ≡ (ok key, d')
      → load_signer_pk c t k fs var' random' path d' ≡ (ok key, d')
  unfolding load_signer_pk
  load_signer_pk_again var var' random random' key path d d' e =
      elim (Bool-cases (fs.exists path d)) [
        | inl there ↦
            let same : ◌≡◌ {A = Loaded} (load_pk c t k fs path d, d) (ok key, d') = rw there at e in
            let disks : d ≡ d' = ap (λ (l : Loaded). l.1) same in
            subst
              (λ x.
                (if fs.exists path x
                  then (load_pk c t k fs path x, x)
                  else generated c t k fs (require_generate_keys_env var' (codes "Signer key") path)
                      random' path x)
                ≡ (ok key, d'))
              disks (rw there same)
        | inr missing ↦
            let (same, written) =
              generated-eq-ok (require_generate_keys_env var (codes "Signer key") path) random key
                path d d' (rw missing at e) in
            rw
              (
                disk.exists-write path (c.key_to_bytes random) d d' written,
                load_written random path d d' written,
              )
              (ap (λ x. (ok x, d')) same)
      ]
