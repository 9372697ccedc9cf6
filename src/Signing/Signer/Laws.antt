-- ===== src/Signing/Signer/Laws.antt =====
-- What a signature of the signer guarantees to whoever recovers it, and the shape of its text.
use zee_k_verifier.Prelude.{
  Bool, true, false, not, [], ◌∷◌, ◌++◌, Bytes, Text, length, some, ok, drop, ◌≡◌, refl, ap, ◌∙◌,
  arith, Bool-cases, >>=-eq-ok, length-append, length-drop, inl, inr, Result-cases, subst,
  ok-injective, err-ne-ok,
}
use mathlib.Core.Bool.{xor}
use zee_k_verifier.Extern.Hex.{Hex, IsHex}
use zee_k_verifier.Extern.Crypto.{Crypto, IsCrypto}
use zee_k_verifier.Signing.Signer.{
  SignatureVFormat, convert_v, Signer, sign_prehash, normalize_low, sign_prehash_to_hex_with_format,
  evm_address,
}

xor-false : (b : Bool) → xor b false ≡ b
unfolding xor
xor-false true = refl
xor-false false = refl

xor-true : (b : Bool) → xor b true ≡ not b
unfolding xor
xor-true true = refl
xor-true false = refl

module _ (c : Crypto) (laws : IsCrypto c) where
  -- The two steps agree with each other: whatever S came, the pair recovers as before.
  normalize_low_sound :
      (hash : Bytes) (sig : c.Signature) (recid : c.RecoveryId) (key : c.VerifyingKey)
      → c.recover hash sig recid ≡ some key
      → (c.is_high (normalize_low c (sig, recid)).0 ≡ false)
        × (c.recover hash (normalize_low c (sig, recid)).0 (normalize_low c (sig, recid)).1
            ≡ some key)
  unfolding normalize_low
  normalize_low_sound hash sig recid key e = elim (Bool-cases (c.is_high sig)) [
    | inl high ↦
        let (low, found, is_low) = laws.normalize_s_high sig high in
        rw (found, high, xor-true)
          (
            is_low,
            laws.recover_normalized hash sig low (c.is_y_odd recid) (c.is_x_reduced recid) found
                ∙ rw (laws.recid_new_lem recid) e,
          )
    | inr low ↦
        rw (laws.normalize_s_low sig low, low, xor-false) (refl, rw (laws.recid_new_lem recid) e)
  ]

  -- By the laws of the curve library: what `sign_prehash` returns has a low S, and recovers from the same hash to the verifying key
  -- of the signer, whichever S and parity the curve library had produced.
  pub sign_prehash_sound :
      (signer : Signer c) (hash : Bytes) (sig : c.Signature) (recid : c.RecoveryId)
      → sign_prehash c signer hash ≡ ok (sig, recid)
      → (c.is_high sig ≡ false)
        × (c.recover hash sig recid ≡ some (c.verifying_key signer.signing_key))
  unfolding sign_prehash
  sign_prehash_sound signer hash sig recid e =
      elim (Result-cases (c.sign_prehash_recoverable signer.signing_key hash)) [
        | inl ((s, r), signed) ↦
            subst
              (λ (p : c.Signature × c.RecoveryId).
                (c.is_high p.0 ≡ false)
                × (c.recover hash p.0 p.1 ≡ some (c.verifying_key signer.signing_key)))
              (ok-injective (rw signed at e))
              (normalize_low_sound hash s r _
                (laws.recover_signed signer.signing_key hash s r signed))
        | inr (why, failed) ↦ absurd (err-ne-ok (rw failed at e))
      ]

  -- By the laws of the curve and hex libraries, the text of a signature is 130 hex digits: 64 bytes and one recovery byte, in either format.
  pub length-sign_prehash_to_hex :
      (h : Hex)
      → IsHex h
      → (signer : Signer c) (hash : Bytes) (v_format : SignatureVFormat) {text : Text}
      → sign_prehash_to_hex_with_format c h signer hash v_format ≡ ok text
      → length text ≡ 130
  unfolding sign_prehash_to_hex_with_format
  length-sign_prehash_to_hex h hex signer hash v_format e =
      let (signed, _, written) = >>=-eq-ok (sign_prehash c signer hash) _ e in
      omega (
        arith,
        ap length (ok-injective written),
        hex.length-encode (c.sig_to_bytes signed.0 ++ convert_v v_format (c.to_byte signed.1) ∷ []),
        length-append (c.sig_to_bytes signed.0) (convert_v v_format (c.to_byte signed.1) ∷ []),
        laws.length-sig_to_bytes signed.0,
      )

  -- By the laws of the curve and hex libraries, the address of every signer is `0x` and 40 hex
  -- digits.
  pub length-evm_address :
      (h : Hex) → IsHex h → (signer : Signer c) → length (evm_address c h signer) ≡ 42
  unfolding evm_address
  length-evm_address h hex signer =
      let hash = c.keccak256 (drop 1 (c.uncompressed (c.verifying_key signer.signing_key))) in
      omega (
        arith,
        hex.length-encode (drop 12 hash),
        length-drop 12 hash,
        laws.length-keccak256 (drop 1 (c.uncompressed (c.verifying_key signer.signing_key))),
      )
