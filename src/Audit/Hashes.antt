-- ===== src/Audit/Hashes.antt =====
-- When two hashes are shown alike for a stored ciphertext.
use zee_k_verifier.Prelude.{
  ℕ, zero, suc, ◌<◌, Bool, true, false, [], ◌∷◌, ◌++◌, length, take, Bytes, IsBytes, All-append,
  with_0x, ◌≡◌, ◌↔◌, refl, sym, ap, ◌∙◌, ok-injective, arith, append-injective_last,
}
use zee_k_verifier.Extern.Hex.{Hex, IsHex}
use zee_k_verifier.Storage.Objects.{StoredCiphertext}
use zee_k_verifier.Api.Hash.Laws.{type_byte, adjust_hash_for_metadata-eq}
use zee_k_verifier.Audit.Run.{shown_hash}

-- The first thirty bytes of two hashes, which their adjusted forms keep.
abbrev pub SameCore : Bytes → Bytes → Type 0
SameCore hash hash' = take 30 hash ≡ take 30 hash'

IsBytes-take : (i : ℕ) (b : Bytes) → IsBytes b → IsBytes (take i b)
IsBytes-take zero b h = tt
IsBytes-take (suc i) [] h = tt
IsBytes-take (suc i) (x ∷ b) h = (h.0, IsBytes-take i b h.1)

type_byte-lt : (ty : ℕ) (flag : Bool) → type_byte ty flag < 256
type_byte-lt ty true = omega arith
type_byte-lt ty false = omega arith

module _ (h : Hex) (hex : IsHex h) where
  -- Bytes that are printed alike are the same.
  encode-injective : (a b : Bytes) → IsBytes a → IsBytes b → h.encode a ≡ h.encode b → a ≡ b
  encode-injective a b fits fits' e =
      ok-injective (sym (hex.decode-encode a fits) ∙ ap h.decode e ∙ hex.decode-encode b fits')

  module _ (s : StoredCiphertext) (flag : Bool) (zone : s.metadata.security_zone < 256) where
    adjusted-IsBytes :
        (hash : Bytes)
        → IsBytes hash
        → IsBytes
            (take 30 hash ++ type_byte s.metadata.ct_type flag ∷ s.metadata.security_zone ∷ [])
    adjusted-IsBytes hash fits =
        All-append _ (take 30 hash) _ (IsBytes-take 30 hash fits)
          (type_byte-lt s.metadata.ct_type flag, (zone, tt))

    -- Hashes are shown alike for an object exactly when their first thirty bytes agree.
    pub shown_hash-injective :
        (a b : Bytes)
        → IsBytes a
        → IsBytes b
        → length a ≡ 32
        → length b ≡ 32
        → (shown_hash h a s flag ≡ shown_hash h b s flag) ↔ SameCore a b
    unfolding shown_hash with_0x
    shown_hash-injective a b fits fits' l l' =
        rw
          (
            adjust_hash_for_metadata-eq a s.metadata.ct_type s.metadata.security_zone flag l,
            adjust_hash_for_metadata-eq b s.metadata.ct_type s.metadata.security_zone flag l',
          )
          (
            λ e.
                (append-injective_last (take 30 a) _ (take 30 b) _ refl (
                  encode-injective _ _ (adjusted-IsBytes a fits) (adjusted-IsBytes b fits')
                    (cc e))).0,
            λ e. rw e refl,
          )
