-- ===== src/Api/Address/Laws.antt =====
-- What the canonical spelling promises to the verifier, the digest and the stored metadata.
use zee_k_verifier.Prelude.{
  true, length, Bytes, Text, ok, map_err, >>=-eq-ok, map_err-eq-ok, ok-injective, without_0x,
  with_0x, without_0x-with_0x, ◌==◌, ◌≡◌, ◌↔◌, refl, sym, ap, ◌∙◌, subst, arith, Bool-cases, inl,
  inr, to_ascii_lowercase, eq_ignore_ascii_case, text_eq, text_eq_sound, text_eq_refl,
}
use zee_k_verifier.Extern.Hex.{Hex, IsHex}
use zee_k_verifier.Api.Address.{canonical_contract_address, sized, not_hex}

-- The bytes of an accepted address, and its canonical spelling.
record Accepted (h : Hex) (raw address : Text) : Type 0 where
  bytes : Bytes
  decoded : h.decode (without_0x raw) ≡ ok bytes
  twenty : length bytes ≡ 20
  spelled : address ≡ with_0x (h.encode bytes)

module _ (h : Hex) where
  sized-twenty :
      (bytes : Bytes) (address : Text)
      → sized h bytes ≡ ok address
      → (length bytes ≡ 20) × (address ≡ with_0x (h.encode bytes))
  unfolding sized
  sized-twenty bytes address e = elim (Bool-cases (length bytes == 20)) [
    | inl exact ↦ (ground arith, ok-injective (sym e ∙ rw exact refl))
    | inr other ↦ absurd (ground arith)
  ]

  canonical-Accepted :
      (raw address : Text) → canonical_contract_address h raw ≡ ok address → Accepted h raw address
  unfolding canonical_contract_address
  canonical-Accepted raw address e =
      let (bytes, decoded, rest) =
        >>=-eq-ok (map_err not_hex (h.decode (without_0x raw))) (sized h) e in
      let (twenty, spelled) = sized-twenty bytes address rest in
      record {
        bytes = bytes;
        decoded = map_err-eq-ok not_hex (h.decode (without_0x raw)) decoded;
        twenty = twenty;
        spelled = spelled;
      }

  Accepted-canonical :
      (raw : Text) (bytes : Bytes)
      → h.decode (without_0x raw) ≡ ok bytes
      → length bytes ≡ 20
      → canonical_contract_address h raw ≡ ok (with_0x (h.encode bytes))
  unfolding canonical_contract_address sized
  Accepted-canonical raw bytes decoded twenty = rw decoded (rw twenty refl)

  module _ (law : IsHex h) where
    lowered :
        (raw address : Text)
        → canonical_contract_address h raw ≡ ok address
        → address ≡ with_0x (to_ascii_lowercase (without_0x raw))
    lowered raw address e =
        let a = canonical-Accepted raw address e in
        a.spelled ∙ ap with_0x (law.encode-decode (without_0x raw) a.bytes a.decoded)

    -- By the laws of the hex library, a canonical address is `0x` and forty more characters, decodes to the twenty bytes of the
    -- address that was sent, and is its own canonical form.
    pub canonical_contract_address_stable :
        (raw address : Text)
        → canonical_contract_address h raw ≡ ok address
        → (length address ≡ 42)
          × (h.decode (without_0x address) ≡ h.decode (without_0x raw))
          × (canonical_contract_address h address ≡ ok address)
    unfolding with_0x
    canonical_contract_address_stable raw address e =
        let a = canonical-Accepted raw address e in
        let again : h.decode (without_0x address) ≡ ok a.bytes =
          ap (λ s. h.decode (without_0x s)) a.spelled
          ∙ ap h.decode (without_0x-with_0x (h.encode a.bytes))
          ∙ law.decode-encode a.bytes (law.decode-IsBytes (without_0x raw) a.bytes a.decoded) in
        (
          ap length a.spelled ∙ omega (arith, law.length-encode a.bytes, a.twenty),
          again ∙ sym a.decoded,
          Accepted-canonical address a.bytes again a.twenty ∙ ap ok (sym a.spelled),
        )

    -- By the laws of the hex library, two accepted spellings have one canonical form exactly if they differ at most in an `0x`
    -- before the digits and in the case of letters.
    pub canonical_contract_address_iff :
        (raw raw' address address' : Text)
        → canonical_contract_address h raw ≡ ok address
        → canonical_contract_address h raw' ≡ ok address'
        → (address ≡ address') ↔ (eq_ignore_ascii_case (without_0x raw) (without_0x raw') ≡ true)
    unfolding eq_ignore_ascii_case with_0x
    canonical_contract_address_iff raw raw' address address' e e' =
        let low = lowered raw address e in
        let low' = lowered raw' address' e' in
        (
          λ same.
              subst (λ s. text_eq (to_ascii_lowercase (without_0x raw)) s ≡ true)
                (digits (sym low ∙ same ∙ low'))
                (text_eq_refl (to_ascii_lowercase (without_0x raw))),
          λ same. low ∙ ap with_0x (text_eq_sound _ _ same) ∙ sym low',
        )
      where
        digits : {s t : Text} → with_0x s ≡ with_0x t → s ≡ t
        digits p = cc
