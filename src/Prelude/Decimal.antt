-- ===== src/Prelude/Decimal.antt =====
-- What a printed number holds: its digits and nothing else, and they give the number back.
use Prim.Native.Nat.{ℕ, zero, suc, ◌+◌, ◌-◌, ◌*◌, ◌/◌, ◌%◌, ◌<◌, ◌≤◌}
use mathlib.Core.Path.{◌≡◌, sym, ap, ◌∙◌}
use mathlib.Core.Logic.{inl, inr}
use mathlib.Core.List.{[], ◌∷◌}
use native.Mathlib.Omega.{arith}
use zee_k_verifier.Prelude.Tests.{ltb, Bool-cases, ltb→lt}
use zee_k_verifier.Prelude.Lists.{All}
use zee_k_verifier.Prelude.Octets.{Text}
use zee_k_verifier.Prelude.Strings.{decimal, digits_on}

-- The number that digits stand for, after what has been read.
abbrev read : ℕ → Text → ℕ
read n [] = n
read n (c ∷ s) = read (n * 10 + (c - b'0')) s

read-digits_on : (fuel n : ℕ) (acc : Text) → n < fuel → read 0 (digits_on fuel n acc) ≡ read n acc
unfolding digits_on
read-digits_on zero n acc h = absurd (omega arith)
read-digits_on (suc fuel) n acc h = elim (Bool-cases (ltb n 10)) [
  | inl small ↦ rw small (ap (λ m. read m acc) (omega arith))
  | inr large ↦ rw large (
      read-digits_on fuel (n / 10) ((b'0' + n % 10) ∷ acc) (ground arith)
      ∙ ap (λ m. read m acc) (omega arith))
]

-- Printed numbers are different for different numbers.
pub decimal-injective : (n m : ℕ) → decimal n ≡ decimal m → n ≡ m
unfolding decimal
decimal-injective n m e =
    sym (read-digits_on (suc n) n [] (omega arith))
    ∙ ap (read 0) e
    ∙ read-digits_on (suc m) m [] (omega arith)

abbrev pub IsDigit : ℕ → Type 0
IsDigit digit = (b'0' ≤ digit) × (digit ≤ b'9')

digits_on-IsDigit : (fuel n : ℕ) (acc : Text) → All IsDigit acc → All IsDigit (digits_on fuel n acc)
unfolding digits_on
digits_on-IsDigit zero n acc h = h
digits_on-IsDigit (suc fuel) n acc h = elim (Bool-cases (ltb n 10)) [
  | inl small ↦ rw small ((omega arith, omega (arith, ltb→lt n 10 small)), h)
  | inr large ↦
      rw large
        (digits_on-IsDigit fuel (n / 10) ((b'0' + n % 10) ∷ acc) ((omega arith, omega arith), h))
]

pub decimal-IsDigit : (n : ℕ) → All IsDigit (decimal n)
unfolding decimal
decimal-IsDigit n = digits_on-IsDigit (suc n) n [] tt
