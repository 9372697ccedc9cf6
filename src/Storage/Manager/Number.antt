-- ===== src/Storage/Manager/Number.antt =====
-- `str::parse::<u32>()` on a printed number, as the storage manager reads back its chain id.
use zee_k_verifier.Prelude.{
  ℕ, zero, suc, ◌+◌, ◌-◌, ◌*◌, ◌/◌, ◌%◌, ◌^◌, ◌<◌, ◌&&◌, [], ◌∷◌, Option, none, some, Text, decimal,
  digits_on, ltb, leb, length, ◌==◌, if◌then◌else◌, ◌≡◌, refl, ◌∙◌, arith, Bool-cases, inl, inr,
  All, subst,
}
use zee_k_verifier.Prelude.Decimal.{IsDigit, decimal-IsDigit}

-- Digits after a number; `none` on any other byte and on a number that needs more than 32 bits.
unfoldable pub digits_u32 : ℕ → Text → Option ℕ
digits_u32 n [] = some n
digits_u32 n (c ∷ s) =
    let next = n * 10 + (c - b'0') in
    let rest = digits_u32 next s in
    if leb b'0' c && leb c b'9' && ltb next (2 ^ 32) then rest else none

-- A leading plus is allowed, no text at all is not.
unfoldable pub parse_u32 : Text → Option ℕ
unfolding digits_u32
parse_u32 [] = none
parse_u32 (c ∷ []) = digits_u32 0 (c ∷ [])
parse_u32 (c ∷ d ∷ s) = if c == b'+' then digits_u32 0 (d ∷ s) else digits_u32 0 (c ∷ d ∷ s)

digit_u32 :
    (n : ℕ) (s : Text) → n < 2 ^ 32 → digits_u32 (n / 10) ((b'0' + n % 10) ∷ s) ≡ digits_u32 n s
unfolding digits_u32
digit_u32 n s h =
    let value : n / 10 * 10 + ((b'0' + n % 10) - b'0') ≡ n = omega arith in ground (arith, value)

digits_u32-digits_on :
    (fuel n : ℕ) (acc : Text)
    → n < fuel
    → n < 2 ^ 32
    → digits_u32 0 (digits_on fuel n acc) ≡ digits_u32 n acc
unfolding digits_on
digits_u32-digits_on zero n acc h k = absurd (omega arith)
digits_u32-digits_on (suc fuel) n acc h k = elim (Bool-cases (ltb n 10)) [
  | inl small ↦
      let zeroth : n / 10 ≡ 0 = ground arith in
      let unit : n % 10 ≡ n = ground arith in
      rw small (
        subst (λ m. digits_u32 m ((b'0' + n) ∷ acc) ≡ digits_u32 n acc) zeroth
          (subst (λ m. digits_u32 (n / 10) ((b'0' + m) ∷ acc) ≡ digits_u32 n acc) unit
            (digit_u32 n acc k)))
  | inr large ↦ rw large (
      digits_u32-digits_on fuel (n / 10) ((b'0' + n % 10) ∷ acc) (ground arith) (omega arith)
      ∙ digit_u32 n acc k)
]

unsigned : (s : Text) → All IsDigit s → 0 < length s → parse_u32 s ≡ digits_u32 0 s
unfolding parse_u32
unsigned [] h some_digits = absurd (omega arith)
unsigned (c ∷ []) h some_digits = refl
unsigned (c ∷ d ∷ s) h some_digits = ground (arith, h.0.0)

length-digits_on : (fuel n c : ℕ) (acc : Text) → 0 < length (digits_on fuel n (c ∷ acc))
unfolding digits_on
length-digits_on zero n c acc = omega arith
length-digits_on (suc fuel) n c acc = elim (Bool-cases (ltb n 10)) [
  | inl small ↦ rw small (omega arith)
  | inr large ↦ rw large (length-digits_on fuel (n / 10) (b'0' + n % 10) (c ∷ acc))
]

length-decimal : (n : ℕ) → 0 < length (decimal n)
unfolding decimal digits_on
length-decimal n = elim (Bool-cases (ltb n 10)) [
  | inl small ↦ rw small (omega arith)
  | inr large ↦ rw large (length-digits_on n (n / 10) (b'0' + n % 10) [])
]

-- A printed 32-bit integer is read back.
pub parse_u32-decimal : (n : ℕ) → n < 2 ^ 32 → parse_u32 (decimal n) ≡ some n
unfolding decimal digits_u32
parse_u32-decimal n h =
    unsigned (decimal n) (decimal-IsDigit n) (length-decimal n)
    ∙ digits_u32-digits_on (suc n) n [] (omega arith) h
