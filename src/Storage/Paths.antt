-- ===== src/Storage/Paths.antt =====
-- Where objects stand in the bucket: the base path of the storage manager
-- (zk-verifier/src/storage/storage_manager.rs) and the sharded key of the provider (gcs.rs).
pub mod Laws
mod Tests
use zee_k_verifier.Prelude.{
  ℕ, zero, suc, ◌+◌, Bool, true, false, ◌||◌, List, [], ◌∷◌, ◌++◌, Option, none, some, Text, length,
  take, get_elem?, codes, decimal, join, without_0x, leb, ltb, if◌then◌else◌,
}

abbrev pub shard_prefix_length : ℕ
shard_prefix_length = 4

-- `s.is_char_boundary(n)`: the end, or a byte that does not continue a character.
is_char_boundary : ℕ → Text → Bool
is_char_boundary n s = elim (get_elem? s n) [
  | none ↦ leb n (length s)
  | some b ↦ ltb b 128 || leb 192 b
]

-- `&s[0..n]`, which panics off a boundary: `none`.
slice_to : ℕ → Text → Option Text
unfolding is_char_boundary
slice_to n s = if is_char_boundary n s then some (take n s) else none

-- `format!("{}/{}", a, b)`
abbrev slash : Text → Text → Text
slash a b = a ++ b'/' ∷ b

with_prefix : Text → Option Text → Option Text
with_prefix clean_key none = none
with_prefix clean_key (some prefix) = some (slash prefix clean_key)

unfoldable pub sharded_path : Text → Option Text
unfolding slice_to with_prefix
sharded_path clean_key =
    if leb shard_prefix_length (length clean_key)
    then with_prefix clean_key (slice_to shard_prefix_length clean_key)
    else some (slash clean_key clean_key)

abbrev part : Option Text → List Text
part none = []
part (some p) = p ∷ []

joined : Option Text → Option Text → Option Text → Option Text
unfolding join
joined base_path dynamic_path none = none
joined base_path dynamic_path (some path) =
    some (join (b'/' ∷ []) (part base_path ++ part dynamic_path ++ path ∷ []))

-- `none` is a panic.
unfoldable pub generate_object_key : Text → Option Text → Option Text → Option Text
unfolding sharded_path joined without_0x
generate_object_key key base_path dynamic_path =
    joined base_path dynamic_path (sharded_path (without_0x key))

-- The two kinds of objects.
abbrev pub cts_type : Text
unfolding codes
cts_type = codes "verified-inputs"

abbrev pub proofs_type : Text
unfolding codes
proofs_type = codes "verification-proofs"

unfoldable pub build_base_path : ℕ → ℕ → Text → Text
unfolding codes decimal
build_base_path chain_id security_zone object_type =
    codes "cofhe/v2/chain/"
    ++ (decimal chain_id
        ++ (codes "/security-zone/" ++ (decimal security_zone ++ (b'/' ∷ object_type))))
