-- ===== src/Prelude/Strings.antt =====
-- What the code uses of Rust's `str` and `String`, over UTF-8 bytes.
use Prim.Native.Nat.{ℕ, zero, suc, ◌+◌, ◌/◌, ◌%◌}
use mathlib.Core.Path.{◌≡◌, refl}
use mathlib.Core.Bool.{Bool, true, false, ◌&&◌}
use mathlib.Core.Option.{Option, none, some}
use mathlib.Core.List.{List, [], ◌∷◌, ◌++◌, map}
use native.Mathlib.Omega.{arith}
use zee_k_verifier.Prelude.Tests.{if◌then◌else◌, ◌==◌, ltb, leb}
use zee_k_verifier.Prelude.Octets.{Text, codes}

-- `str::strip_prefix`
unfoldable pub strip_prefix : Text → Text → Option Text
strip_prefix [] s = some s
strip_prefix (p ∷ ps) [] = none
strip_prefix (p ∷ ps) (c ∷ s) = if p == c then strip_prefix ps s else none

-- `s.strip_prefix("0x").unwrap_or(s)`, as the source writes it at every address and key.
unfoldable pub without_0x : Text → Text
unfolding strip_prefix
without_0x s = elim (strip_prefix (b'0' ∷ b'x' ∷ []) s) [ none ↦ s | some rest ↦ rest ]

-- `format!("0x{}", s)`
unfoldable pub with_0x : Text → Text
with_0x s = b'0' ∷ b'x' ∷ s

pub without_0x-with_0x : (s : Text) → without_0x (with_0x s) ≡ s
unfolding without_0x with_0x
without_0x-with_0x s = refl

-- ASCII case.
unfoldable pub to_ascii_lower : ℕ → ℕ
to_ascii_lower c = if leb b'A' c && leb c b'Z' then c + 32 else c

unfoldable pub to_ascii_lowercase : Text → Text
unfolding to_ascii_lower
to_ascii_lowercase = map to_ascii_lower

-- Equality of byte strings.
unfoldable pub text_eq : Text → Text → Bool
text_eq [] [] = true
text_eq (a ∷ s) (b ∷ t) = a == b && text_eq s t
text_eq _ _ = false

pub text_eq_sound : (s t : Text) → text_eq s t ≡ true → s ≡ t
unfolding text_eq
text_eq_sound [] [] h = refl
text_eq_sound [] (b ∷ t) h = cc
text_eq_sound (a ∷ s) [] h = cc
text_eq_sound (a ∷ s) (b ∷ t) h = ground (arith, text_eq_sound s t)

pub text_eq_refl : (s : Text) → text_eq s s ≡ true
unfolding text_eq
text_eq_refl [] = refl
text_eq_refl (a ∷ s) = ground (arith, text_eq_refl s)

-- `str::eq_ignore_ascii_case`
unfoldable pub eq_ignore_ascii_case : Text → Text → Bool
unfolding text_eq to_ascii_lowercase
eq_ignore_ascii_case s t = text_eq (to_ascii_lowercase s) (to_ascii_lowercase t)

-- The decimal digits of a number, most significant first: `Display` of an unsigned integer.
-- Each call divides by ten, so `n + 1` rounds are enough.
unfoldable pub digits_on : ℕ → ℕ → Text → Text
digits_on zero n acc = acc
digits_on (suc fuel) n acc =
    let rest = digits_on fuel (n / 10) ((b'0' + n % 10) ∷ acc) in
    if ltb n 10 then (b'0' + n) ∷ acc else rest

unfoldable pub decimal : ℕ → Text
unfolding digits_on
decimal n = digits_on (suc n) n []

-- `[a, b, c].join(sep)`
unfoldable pub join : Text → List Text → Text
join sep [] = []
join sep (s ∷ []) = s
join sep (s ∷ t ∷ rest) = s ++ sep ++ join sep (t ∷ rest)

decimal_example : decimal 11155111 ≡ codes "11155111"
unfolding decimal codes
decimal_example = refl
