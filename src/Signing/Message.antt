-- ===== src/Signing/Message.antt =====
-- Messages to be signed (rust-common/src/signing/message_builder.rs).
pub mod Laws
use zee_k_verifier.Prelude.{
  ℕ, zero, suc, ◌+◌, ◌-◌, ◌%◌, ◌^◌, Bool, true, false, List, [], ◌∷◌, ◌++◌, Bytes, Text, be_bytes,
  length,
}
use zee_k_verifier.Extern.Crypto.{Crypto}

-- A signed integer; `negsuc n` is -(n + 1).
pub data ℤ : Type 0 where
  pos : ℕ → ℤ
  negsuc : ℕ → ℤ

-- The two's complement bits of a `w`-bit signed integer.
unfoldable pub to_bits : ℕ → ℤ → ℕ
to_bits w (pos n) = n % 2 ^ w
to_bits w (negsuc n) = (2 ^ w - 1) - n % 2 ^ w

-- The types that implement the trait `SigningEncode`, each with a value.
pub data SigningEncode : Type 0 where
  slice vec array : Bytes → SigningEncode
  str string : Text → SigningEncode
  u8 u16 u32 u64 : ℕ → SigningEncode
  i32 i64 : ℤ → SigningEncode

unfoldable pub encode_to : SigningEncode → Bytes → Bytes
unfolding be_bytes to_bits
encode_to (slice b) buffer = buffer ++ b
encode_to (vec b) buffer = buffer ++ b
encode_to (array b) buffer = buffer ++ b
encode_to (str s) buffer = buffer ++ s
encode_to (string s) buffer = buffer ++ s
encode_to (u8 n) buffer = buffer ++ n ∷ []
encode_to (u16 n) buffer = buffer ++ be_bytes 2 n
encode_to (u32 n) buffer = buffer ++ be_bytes 4 n
encode_to (u64 n) buffer = buffer ++ be_bytes 8 n
encode_to (i32 z) buffer = buffer ++ be_bytes 4 (to_bits 32 z)
encode_to (i64 z) buffer = buffer ++ be_bytes 8 (to_bits 64 z)

pub record SigningMessageBuilder : Type 0 where
  pub buffer : Bytes

abbrev pub new : SigningMessageBuilder
new = record { buffer = [] }

-- The capacity is a hint to the allocator.
with_capacity : ℕ → SigningMessageBuilder
with_capacity capacity = record { buffer = [] }

infixl 20 ◌add◌
unfoldable pub ◌add◌ : SigningMessageBuilder → SigningEncode → SigningMessageBuilder
unfolding encode_to
b add value = record { buffer = encode_to value b.buffer }

unfoldable pub build : SigningMessageBuilder → Bytes
build b = b.buffer

unfoldable pub build_hash : Crypto → SigningMessageBuilder → Bytes
build_hash c b = c.keccak256 b.buffer

len : SigningMessageBuilder → ℕ
len b = length b.buffer

is_empty : SigningMessageBuilder → Bool
is_empty b = is_nil b.buffer
  where
    is_nil : Bytes → Bool
    is_nil [] = true
    is_nil (_ ∷ _) = false
