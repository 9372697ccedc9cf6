-- ===== src/Extern/Tfhe.antt =====
-- The crate `tfhe`: types that the code passes on, and the calls that it makes.
use zee_k_verifier.Prelude.{ℕ, ◌≡◌, Option, Result, Bytes, Text}

-- The variants that the code names; `other` stands for those that it does not.
pub data FheTypes : Type 0 where
  bool : FheTypes
  uint2 uint4 uint6 uint8 uint10 uint12 uint14 uint16 uint32 uint64 uint128 uint160 : FheTypes
  uint256 uint512 uint1024 uint2048 : FheTypes
  int2 int4 int6 int8 int10 int12 int14 int16 int32 int64 int128 int160 int256 : FheTypes
  other : ℕ → FheTypes

pub record Tfhe : Type 1 where
  pub CompactPkeCrs : Type 0
  pub CompactPublicKey : Type 0
  pub ServerKey : Type 0
  pub ProvenCompactCiphertextList : Type 0
  pub Expander : Type 0
  pub Ciphertext : Type 0
  pub CompressedCiphertext : Type 0
  -- `ct_type as u8`
  pub discriminant : FheTypes → ℕ
  -- `format!("{:?}", ct_type)`
  pub debug : FheTypes → Text
  -- `proven.verify_and_expand(crs, pk, metadata)`
  pub verify_and_expand :
      ProvenCompactCiphertextList → CompactPkeCrs → CompactPublicKey → Bytes → Result Text Expander
  -- `expander.len()`, `get_kind_of(index)`, and `get::<T>(index)` at the type for a kind
  pub len : Expander → ℕ
  pub get_kind_of : Expander → ℕ → Option FheTypes
  pub get : FheTypes → Expander → ℕ → Result Text (Option Ciphertext)
  pub compress : Ciphertext → CompressedCiphertext
  -- `safe_serialize(value, &mut buf, limit)` and `safe_deserialize(bytes, limit)`
  pub safe_serialize : CompressedCiphertext → ℕ → Result Text Bytes
  pub safe_deserialize : Bytes → ℕ → Result Text ProvenCompactCiphertextList

-- The thirty types that the verifier serialises.
abbrev pub IsServed : FheTypes → Type 0
IsServed (other n) = ⊥
IsServed _ = Unit

-- The discriminants tell these types apart.
pub record IsTfhe (t : Tfhe) : Type 0 where
  pub discriminant-injective :
      (ty ty' : FheTypes)
      → IsServed ty
      → IsServed ty'
      → t.discriminant ty ≡ t.discriminant ty'
      → ty ≡ ty'
