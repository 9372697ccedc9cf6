-- ===== src/Samples/CryptoCrate.antt =====
-- A crate `k256` whose signatures carry their key: the signer produces a high S, so that the code's
-- normalisation has something to do. The hash keeps 32 bytes of its input.
use mathlib.Core.Bool.{xor}
use zee_k_verifier.Prelude.{
  ℕ, ◌+◌, ◌*◌, ◌%◌, ◌≡◌, refl, [], map, ◌∙◌, IsBytes, length-map, Bool, true, false, not, ◌∷◌, ◌++◌,
  Option, none, some, Result, ok, err, codes, Bytes, Text, length, replicate, take, if◌then◌else◌,
  arith, length-take, length-append, subst, ok-injective,
}
use zee_k_verifier.Extern.Crypto.{Crypto, IsCrypto}

unfoldable pub keccak256 : Bytes → Bytes
keccak256 b = map (λ x. x % 256) (take 32 (b ++ replicate 32 0))

unfoldable pub recover : Bytes → Bool × ℕ → Bool × Bool → Option ℕ
unfolding xor
recover hash (high, key) (y, x) = if xor high y then some key else none

-- The first byte is the key.
unfoldable pub from_slice : Bytes → Result Text ℕ
unfolding codes
from_slice [] = err (codes "signature error")
from_slice (k ∷ rest) = ok k

abbrev pub sample : Crypto
sample = record {
  keccak256 = keccak256;
  SigningKey = ℕ;
  VerifyingKey = ℕ;
  Signature = Bool × ℕ;
  RecoveryId = Bool × Bool;
  from_slice = from_slice;
  key_to_bytes = λ k. replicate 32 k;
  verifying_key = λ k. k;
  uncompressed = λ k. 4 ∷ replicate 64 k;
  sign_prehash_recoverable = λ k h. ok ((true, k), (false, false));
  is_high = λ s. s.0;
  normalize_s = λ s. if s.0 then some (false, s.1) else none;
  sig_to_bytes = λ s. replicate 64 s.1;
  recid_new = λ y x. (y, x);
  is_y_odd = λ r. r.0;
  is_x_reduced = λ r. r.1;
  to_byte = λ r. 2 * (if r.1 then 1 else 0) + (if r.0 then 1 else 0);
  recover = recover;
}

length-keccak256 : (b : Bytes) → length (keccak256 b) ≡ 32
unfolding keccak256
length-keccak256 b =
    length-map (λ x. x % 256) (take 32 (b ++ replicate 32 0))
    ∙ omega (arith, length-take 32 (b ++ replicate 32 0), length-append b (replicate 32 0))

IsBytes-map : (b : Bytes) → IsBytes (map (λ x. x % 256) b)
IsBytes-map [] = tt
IsBytes-map (x ∷ b) = (omega arith, IsBytes-map b)

keccak256-IsBytes : (b : Bytes) → IsBytes (keccak256 b)
unfolding keccak256
keccak256-IsBytes b = IsBytes-map (take 32 (b ++ replicate 32 0))

recover_signed :
    (k : ℕ) (h : Bytes) (s : Bool × ℕ) (r : Bool × Bool)
    → ◌≡◌ {A = Result Text ((Bool × ℕ) × (Bool × Bool))}
        (ok ((true, k), (false, false)))
        (ok (s, r))
    → recover h s r ≡ some k
unfolding recover
recover_signed k h (high, key) (y, x) e =
    subst (λ (p : (Bool × ℕ) × (Bool × Bool)). recover h p.0 p.1 ≡ some k) (ok-injective e) refl

recover_normalized :
    (h : Bytes) (s t : Bool × ℕ) (y x : Bool)
    → (if s.0 then some (false, s.1) else none) ≡ some t
    → recover h t (not y, x) ≡ recover h s (y, x)
unfolding recover
recover_normalized h (true, key) t y x e =
    let same : ◌≡◌ {A = Bool × ℕ} (false, key) t = cc in
    subst (λ (p : Bool × ℕ). recover h p (not y, x) ≡ recover h (true, key) (y, x)) same (flip y)
  where
    flip : (b : Bool) → recover h (false, key) (not b, x) ≡ recover h (true, key) (b, x)
    flip true = refl
    flip false = refl
recover_normalized h (false, key) t y x e = absurd (cc)

from_slice-key_to_bytes : (k : ℕ) → from_slice (replicate 32 k) ≡ ok k
unfolding from_slice
from_slice-key_to_bytes k = refl

pub sample-IsCrypto : IsCrypto sample
sample-IsCrypto = record {
  length-keccak256 = length-keccak256;
  keccak256-IsBytes = keccak256-IsBytes;
  length-sig_to_bytes = λ s. refl;
  to_byte-recid_new = λ y x. refl;
  recid_new_lem = λ r. refl;
  normalize_s_low = λ s h. ground arith;
  normalize_s_high = λ s h. ((false, s.1), ground arith, refl);
  from_slice-key_to_bytes = from_slice-key_to_bytes;
  recover_signed = recover_signed;
  recover_normalized = recover_normalized;
}
