-- ===== src/Storage/Paths/Tests.antt =====
-- Paths, as the tests of gcs.rs and storage_manager.rs have them.
use zee_k_verifier.Prelude.{◌≡◌, refl, [], ◌∷◌, ℕ, none, some, codes, Text, without_0x, arith}
use zee_k_verifier.Storage.Paths.{generate_object_key, build_base_path, cts_type, proofs_type}
use zee_k_verifier.Storage.Paths.Laws.{
  generate_object_key-injective, build_base_path-injective, generate_object_key_total,
}

path_tests :
    (generate_object_key (codes "0xa1b2c3d4") none none ≡ some (codes "a1b2/a1b2c3d4"))
    × (generate_object_key (codes "abc") none none ≡ some (codes "abc/abc"))
    × (generate_object_key (codes "a1b2c3") (some (codes "base")) (some (codes "dyn"))
        ≡ some (codes "base/dyn/a1b2/a1b2c3"))
    × (build_base_path 8453 0 cts_type
        ≡ codes "cofhe/v2/chain/8453/security-zone/0/verified-inputs")
    × (build_base_path 11155111 1 proofs_type
        ≡ codes "cofhe/v2/chain/11155111/security-zone/1/verification-proofs")
unfolding generate_object_key build_base_path codes
path_tests = (refl, refl, refl, refl, refl)

-- A key whose fourth byte lies inside a character panics.
panic_test : generate_object_key (97 ∷ 98 ∷ 99 ∷ 195 ∷ 169 ∷ []) none none ≡ none
unfolding generate_object_key
panic_test = refl

abbrev key : Text
key = b'0' ∷ b'x' ∷ b'a' ∷ b'1' ∷ b'b' ∷ b'2' ∷ b'c' ∷ []

-- The same key in its two spellings.
at_path : generate_object_key key none none ≡ some (codes "a1b2/a1b2c")
unfolding generate_object_key codes
at_path = refl

at_path_bare : generate_object_key (without_0x key) none none ≡ some (codes "a1b2/a1b2c")
unfolding generate_object_key codes
at_path_bare = refl

generate_object_key-injective_example : without_0x key ≡ without_0x (without_0x key)
generate_object_key-injective_example =
    generate_object_key-injective key (without_0x key) none none (codes "a1b2/a1b2c") at_path
      at_path_bare

build_base_path-injective_example :
    (◌≡◌ {A = ℕ} 8453 8453) × (◌≡◌ {A = ℕ} 1 1) × (cts_type ≡ cts_type)
build_base_path-injective_example = build_base_path-injective 8453 8453 1 1 cts_type cts_type refl

generate_object_key_total_example : (path : Text) × (generate_object_key key none none ≡ some path)
unfolding without_0x
generate_object_key_total_example = generate_object_key_total key none none (omega arith)
