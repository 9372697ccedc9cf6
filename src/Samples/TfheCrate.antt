-- ===== src/Samples/TfheCrate.antt =====
-- A crate `tfhe` whose proven list is its metadata with the typed ciphertexts it proves, bare.
use zee_k_verifier.Prelude.{
  ℕ, ◌+◌, ◌≡◌, refl, ap, List, [], ◌∷◌, Option, none, some, Result, ok, err, Bytes, Text, length,
  get_elem?, if◌then◌else◌, text_eq, codes, decimal,
}
use zee_k_verifier.Extern.Tfhe.{
  Tfhe, IsTfhe, IsServed, FheTypes, bool, uint2, uint4, uint6, uint8, uint10, uint12, uint14,
  uint16, uint32, uint64, uint128, uint160, uint256, uint512, uint1024, uint2048, int2, int4, int6,
  int8, int10, int12, int14, int16, int32, int64, int128, int160, int256, other,
}

abbrev served : List FheTypes
served =
    bool ∷ uint2 ∷ uint4 ∷ uint6 ∷ uint8 ∷ uint10 ∷ uint12 ∷ uint14 ∷ uint16 ∷ uint32 ∷ uint64
    ∷ uint128 ∷ uint160 ∷ uint256 ∷ uint512 ∷ uint1024 ∷ uint2048 ∷ int2 ∷ int4 ∷ int6 ∷ int8
    ∷ int10 ∷ int12 ∷ int14 ∷ int16 ∷ int32 ∷ int64 ∷ int128 ∷ int160 ∷ int256 ∷ []

unfoldable pub discriminant : FheTypes → ℕ
discriminant bool = 0
discriminant uint2 = 1
discriminant uint4 = 2
discriminant uint6 = 3
discriminant uint8 = 4
discriminant uint10 = 5
discriminant uint12 = 6
discriminant uint14 = 7
discriminant uint16 = 8
discriminant uint32 = 9
discriminant uint64 = 10
discriminant uint128 = 11
discriminant uint160 = 12
discriminant uint256 = 13
discriminant uint512 = 14
discriminant uint1024 = 15
discriminant uint2048 = 16
discriminant int2 = 17
discriminant int4 = 18
discriminant int6 = 19
discriminant int8 = 20
discriminant int10 = 21
discriminant int12 = 22
discriminant int14 = 23
discriminant int16 = 24
discriminant int32 = 25
discriminant int64 = 26
discriminant int128 = 27
discriminant int160 = 28
discriminant int256 = 29
discriminant (other n) = 30 + n

served_at : (ty : FheTypes) → IsServed ty → get_elem? served (discriminant ty) ≡ some ty
unfolding discriminant
served_at (other n) s = absurd s
served_at _ s = refl

discriminant-injective :
    (ty ty' : FheTypes) → IsServed ty → IsServed ty' → discriminant ty ≡ discriminant ty' → ty ≡ ty'
discriminant-injective ty ty' s s' e =
    cc (served_at ty s, served_at ty' s', ap (get_elem? served) e)

pub record Proven : Type 0 where
  pub metadata : Bytes
  pub items : List (FheTypes × Bytes)

unfoldable pub check : Proven → Bytes → Result Text (List (FheTypes × Bytes))
unfolding text_eq codes
check p metadata = if text_eq p.metadata metadata then ok p.items else err (codes "bad proof")

abbrev kind : Option (FheTypes × Bytes) → Option FheTypes
kind none = none
kind (some (ty, bytes)) = some ty

abbrev bytes_of : Option (FheTypes × Bytes) → Option Bytes
bytes_of none = none
bytes_of (some (ty, bytes)) = some bytes

abbrev pub sample : Tfhe
sample = record {
  CompactPkeCrs = Unit {0};
  CompactPublicKey = Unit {0};
  ServerKey = Unit {0};
  ProvenCompactCiphertextList = Proven;
  Expander = List (FheTypes × Bytes);
  Ciphertext = Bytes;
  CompressedCiphertext = Bytes;
  discriminant = discriminant;
  debug = λ ty. decimal (discriminant ty);
  verify_and_expand = λ p crs pk metadata. check p metadata;
  len = length;
  get_kind_of = λ items i. kind (get_elem? items i);
  get = λ ty items i. ok (bytes_of (get_elem? items i));
  compress = λ ct. ct;
  safe_serialize = λ ct limit. ok ct;
  safe_deserialize = λ bytes limit. ok (record { metadata = bytes; items = (uint8, 3 ∷ []) ∷ [] });
}

pub sample-IsTfhe : IsTfhe sample
sample-IsTfhe = record { discriminant-injective = discriminant-injective }
