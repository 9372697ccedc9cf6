-- ===== src/Api/Hash.antt =====
-- The hash that a stored ciphertext goes by (zk-verifier/src/api/mod.rs).
pub mod Laws
mod Tests
use zee_k_verifier.Prelude.{ℕ, zero, suc, ◌+◌, ◌%◌, Bool, List, [], ◌∷◌, set, Bytes, if◌then◌else◌}

abbrev pub trivial_encrypt_and_type_byte : ℕ
trivial_encrypt_and_type_byte = 30

abbrev pub security_zone_byte : ℕ
security_zone_byte = 31

-- `uint_type & TYPE_MASK`: the lowest seven bits.
abbrev pub masked : ℕ → ℕ
masked uint_type = uint_type % 128

-- `b | TRIVIAL_ENCRYPT_FLAG`: the highest bit of a byte set.
abbrev pub flagged : ℕ → ℕ
flagged b = b % 128 + 128

-- `hash[i] = f(hash[i])`
unfoldable pub modify : (ℕ → ℕ) → ℕ → Bytes → Bytes
modify f i [] = []
modify f zero (b ∷ bs) = f b ∷ bs
modify f (suc i) (b ∷ bs) = b ∷ modify f i bs

unfoldable pub adjust_hash_for_metadata : Bytes → ℕ → ℕ → Bool → Bytes
unfolding modify
adjust_hash_for_metadata hash uint_type security_zone is_trivially_encrypted =
    let typed = set hash trivial_encrypt_and_type_byte (masked uint_type) in
    let marked =
      if is_trivially_encrypted
      then modify flagged trivial_encrypt_and_type_byte typed
      else typed in
    set marked security_zone_byte security_zone
