-- ===== src/Prelude/Octets.antt =====
-- Bytes and text. A `u8` is a number below 256, a `String` is the list of its UTF-8 bytes.
use Prim.Native.Char.{code}
use zee_k_verifier.Prelude.Lists.{length, length-append, append-injective_last, All}
use Prim.Native.Nat.{ℕ, zero, suc, ◌/◌, ◌%◌, ◌^◌, ◌<◌}
use Prim.Native.String.{String}
use mathlib.Core.Path.{◌≡◌, refl}
use mathlib.Core.List.{List, [], ◌∷◌, ◌++◌}
use native.Mathlib.Omega.{arith}
use native.Mathlib.Nat.{pow-suc}

abbrev pub Bytes : Type 0
Bytes = List ℕ

abbrev pub Text : Type 0
Text = List ℕ

-- The bytes of an ASCII literal. Shut, so that messages stay short in goals.
unfoldable pub codes : String → Text
codes String.[] = []
codes (String.◌∷◌ c s) = code c ∷ codes s

abbrev pub IsBytes : Bytes → Type 0
IsBytes = All (λ b. b < 256)

-- `to_be_bytes` of a `k`-byte integer.
unfoldable pub be_bytes : ℕ → ℕ → Bytes
be_bytes zero n = []
be_bytes (suc k) n = be_bytes k (n / 256) ++ (n % 256) ∷ []

pub length-be_bytes : (k n : ℕ) → length (be_bytes k n) ≡ k
unfolding be_bytes
length-be_bytes zero n = refl
length-be_bytes (suc k) n =
    omega
      (arith, length-append (be_bytes k (n / 256)) ((n % 256) ∷ []), length-be_bytes k (n / 256))

pub be_bytes-injective :
    (k n m : ℕ) → n < 256 ^ k → m < 256 ^ k → be_bytes k n ≡ be_bytes k m → n ≡ m
unfolding be_bytes
be_bytes-injective zero n m h h' e = omega arith
be_bytes-injective (suc k) n m h h' e =
    let (p, q) =
      append-injective_last (be_bytes k (n / 256)) ((n % 256) ∷ []) (be_bytes k (m / 256))
        ((m % 256) ∷ []) refl e in
    let high : n / 256 ≡ m / 256 =
      be_bytes-injective k (n / 256) (m / 256) (omega (arith, pow-suc 256 k))
        (omega (arith, pow-suc 256 k)) p in
    let low : n % 256 ≡ m % 256 = cc in omega arith
