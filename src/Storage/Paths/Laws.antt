-- ===== src/Storage/Paths/Laws.antt =====
-- Different objects stand at different paths.
use mathlib.Core.List.{append_assoc}
use zee_k_verifier.Prelude.{
  ℕ, ◌+◌, ◌<◌, ◌≤◌, true, [], ◌∷◌, ◌++◌, Option, none, some, Text, length, take, codes, decimal,
  without_0x, leb, ◌≡◌, refl, sym, ap, ◌∙◌, arith, All, append-injective, length-append,
  length-take, Option-cases, Bool-cases, inl, inr, ◌⊎◌, get_elem?, none-ne-some, some-inj,
  All-get_elem?,
}
use zee_k_verifier.Prelude.Decimal.{decimal-injective, decimal-IsDigit, IsDigit}
use zee_k_verifier.Storage.Paths.{
  is_char_boundary, slash, sharded_path, joined, generate_object_key, build_base_path,
}

-- A key is at least as long as its shard, and the shard's own length follows from the path's.
sharded_path_cases :
    (key path : Text)
    → sharded_path key ≡ some path
    → ((4 ≤ length key) × (path ≡ slash (take 4 key) key))
      ⊎ ((length key < 4) × (path ≡ slash key key))
unfolding sharded_path
sharded_path_cases key path e = ground arith

length-slash : (a b : Text) → length (slash a b) ≡ length a + length b + 1
length-slash a b = omega (arith, length-append a (b'/' ∷ b))

length-shard : (key : Text) → 4 ≤ length key → length (take 4 key) ≡ 4
length-shard key h = omega (arith, length-take 4 key)

slash-injective :
    (a b a' b' : Text) → length a ≡ length a' → slash a b ≡ slash a' b' → (a ≡ a') × (b ≡ b')
slash-injective a b a' b' h e =
    let (p, q) = append-injective a (b'/' ∷ b) a' (b'/' ∷ b') h e in (p, cc)

sharded_path-injective :
    (key key' path : Text)
    → sharded_path key ≡ some path
    → sharded_path key' ≡ some path
    → key ≡ key'
sharded_path-injective k k' path e e' = elim (sharded_path_cases k path e) [
  | inl (long, p) ↦ elim (sharded_path_cases k' path e') [
    | inl (long', p') ↦
        (slash-injective (take 4 k) k (take 4 k') k'
          (length-shard k long ∙ sym (length-shard k' long')) (sym p ∙ p')).1
    | inr (short', p') ↦ absurd (
        omega (
          arith,
          ap length p,
          ap length p',
          length-slash (take 4 k) k,
          length-slash k' k',
          length-shard k long,
        ))
  ]
  | inr (short, p) ↦ elim (sharded_path_cases k' path e') [
    | inl (long', p') ↦ absurd (
        omega (
          arith,
          ap length p,
          ap length p',
          length-slash (take 4 k') k',
          length-slash k k,
          length-shard k' long',
        ))
    | inr (short', p') ↦
        (slash-injective k k k' k'
          (omega (arith, ap length p, ap length p', length-slash k k, length-slash k' k'))
          (sym p ∙ p')).1
  ]
]

-- What stands before the sharded key.
prefix : Option Text → Option Text → Text
prefix none none = []
prefix (some base) none = base ++ b'/' ∷ []
prefix none (some dynamic) = dynamic ++ b'/' ∷ []
prefix (some base) (some dynamic) = base ++ (b'/' ∷ (dynamic ++ b'/' ∷ []))

joined-prefix :
    (base dynamic : Option Text) (path : Text)
    → joined base dynamic (some path) ≡ some (prefix base dynamic ++ path)
unfolding joined prefix
joined-prefix none none path = refl
joined-prefix (some base) none path = rw (append_assoc base (b'/' ∷ []) path)
joined-prefix none (some dynamic) path = rw (append_assoc dynamic (b'/' ∷ []) path)
joined-prefix (some base) (some dynamic) path = simp append_assoc

generate_object_key-eq :
    (key : Text) (base dynamic : Option Text) (path : Text)
    → generate_object_key key base dynamic ≡ some path
    → (shard : Text) × (sharded_path (without_0x key) ≡ some shard)
      × (path ≡ prefix base dynamic ++ shard)
unfolding generate_object_key
generate_object_key-eq key base dynamic path e =
    elim (Option-cases (sharded_path (without_0x key))) [
      | inl panics ↦ absurd (none-ne-some (rw (panics, joined) at e))
      | inr (shard, found) ↦
          (shard, found, some-inj (sym e ∙ rw found (joined-prefix base dynamic shard)))
    ]

-- Under one base path and one dynamic path, keys that differ beyond an `0x` prefix get different
-- object paths.
pub generate_object_key-injective :
    (key key' : Text) (base dynamic : Option Text) (path : Text)
    → generate_object_key key base dynamic ≡ some path
    → generate_object_key key' base dynamic ≡ some path
    → without_0x key ≡ without_0x key'
generate_object_key-injective key key' base dynamic path e e' =
    let (shard, found, same) = generate_object_key-eq key base dynamic path e in
    let (shard', found', same') = generate_object_key-eq key' base dynamic path e' in
    let equal : shard ≡ shard' =
      (append-injective (prefix base dynamic) shard (prefix base dynamic) shard' refl
        (sym same ∙ same')).1 in
    sharded_path-injective (without_0x key) (without_0x key') shard' (found ∙ ap some equal) found'

-- A slash ends digits.
split_digits :
    (a b a' b' : Text)
    → All IsDigit a
    → All IsDigit a'
    → slash a b ≡ slash a' b'
    → (a ≡ a') × (b ≡ b')
split_digits [] b [] b' h h' e = (refl, cc)
split_digits [] b (c' ∷ a') b' h h' e = let same : b'/' ≡ c' = cc in absurd (omega (arith, h'.0.0))
split_digits (c ∷ a) b [] b' h h' e = let same : c ≡ b'/' = cc in absurd (omega (arith, h.0.0))
split_digits (c ∷ a) b (c' ∷ a') b' h h' e =
    let (p, q) = split_digits a b a' b' h.1 h'.1 (cc) in (cc, q)

-- The base path of an object determines its chain, its security zone and its kind, as long as the
-- kinds are told apart by their names.
pub build_base_path-injective :
    (chain chain' zone zone' : ℕ) (kind kind' : Text)
    → build_base_path chain zone kind ≡ build_base_path chain' zone' kind'
    → (chain ≡ chain') × (zone ≡ zone') × (kind ≡ kind')
unfolding build_base_path
build_base_path-injective n n' z z' k k' e =
    let after_chain =
      append-injective (codes "cofhe/v2/chain/") _ (codes "cofhe/v2/chain/") _ refl e in
    let (chains, rest) =
      split_digits (decimal n) (codes "security-zone/" ++ slash (decimal z) k) (decimal n')
        (codes "security-zone/" ++ slash (decimal z') k') (decimal-IsDigit n) (decimal-IsDigit n')
        after_chain.1 in
    let after_zone =
      append-injective (codes "security-zone/") _ (codes "security-zone/") _ refl rest in
    let (zones, kinds) =
      split_digits (decimal z) k (decimal z') k' (decimal-IsDigit z) (decimal-IsDigit z')
        after_zone.1 in
    (decimal-injective n n' chains, decimal-injective z z' zones, kinds)

is_char_boundary-ascii :
    (n : ℕ) (s : Text) → All (λ c. c < 128) s → n ≤ length s → is_char_boundary n s ≡ true
unfolding is_char_boundary
is_char_boundary-ascii n s h within = elim (Option-cases (get_elem? s n)) [
  | inl past ↦ rw (past, is_char_boundary) (ground arith)
  | inr (b, there) ↦
      rw (there, is_char_boundary) (ground (arith, All-get_elem? (λ c. c < 128) s n b h there))
]

sharded_path_total :
    (key : Text) → All (λ c. c < 128) key → (shard : Text) × (sharded_path key ≡ some shard)
unfolding sharded_path
sharded_path_total key h = elim (Bool-cases (leb 4 (length key))) [
  | inl long ↦
      (slash (take 4 key) key, rw (long, is_char_boundary-ascii 4 key h (ground arith)) refl)
  | inr short ↦ (slash key key, rw short refl)
]

-- A key of ASCII bytes never panics: its fifth byte, if any, starts a character.
pub generate_object_key_total :
    (key : Text) (base dynamic : Option Text)
    → All (λ c. c < 128) (without_0x key)
    → (path : Text) × (generate_object_key key base dynamic ≡ some path)
unfolding generate_object_key
generate_object_key_total key base dynamic h =
    let (shard, found) = sharded_path_total (without_0x key) h in
    (prefix base dynamic ++ shard, rw found (joined-prefix base dynamic shard))
