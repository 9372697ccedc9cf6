-- ===== src/Api/Hash/Laws.antt =====
-- What can be read off an adjusted hash.
use zee_k_verifier.Prelude.{
  some-inj, ℕ, zero, suc, ◌+◌, ◌%◌, ◌<◌, ◌≤◌, Bool, true, false, List, [], ◌∷◌, ◌++◌, set, take,
  get_elem?, length, some, Bytes, if◌then◌else◌, ◌≡◌, refl, ap, ◌∙◌, sym, arith,
}
use zee_k_verifier.Api.Hash.{modify, flagged, adjust_hash_for_metadata}

module _ {ℓ} {A : Type ℓ} where
  length-set : (xs : List A) (i : ℕ) (v : A) → length (set xs i v) ≡ length xs
  length-set [] i v = refl
  length-set (x ∷ xs) zero v = refl
  length-set (x ∷ xs) (suc i) v = ap suc (length-set xs i v)

  get_elem?-set : (xs : List A) (i : ℕ) (v : A) → i < length xs → get_elem? (set xs i v) i ≡ some v
  get_elem?-set [] i v h = absurd (omega arith)
  get_elem?-set (x ∷ xs) zero v h = refl
  get_elem?-set (x ∷ xs) (suc i) v h = get_elem?-set xs i v (omega arith)

  get_elem?-set_before :
      (xs : List A) (i j : ℕ) (v : A) → j < i → get_elem? (set xs i v) j ≡ get_elem? xs j
  get_elem?-set_before [] i j v h = refl
  get_elem?-set_before (x ∷ xs) zero j v h = absurd (omega arith)
  get_elem?-set_before (x ∷ xs) (suc i) zero v h = refl
  get_elem?-set_before (x ∷ xs) (suc i) (suc j) v h = get_elem?-set_before xs i j v (omega arith)

  take-set : (xs : List A) (i j : ℕ) (v : A) → j ≤ i → take j (set xs i v) ≡ take j xs
  take-set xs i zero v h = refl
  take-set [] i (suc j) v h = refl
  take-set (x ∷ xs) zero (suc j) v h = absurd (omega arith)
  take-set (x ∷ xs) (suc i) (suc j) v h = ap (λ t. x ∷ t) (take-set xs i j v (omega arith))

modify-set : (f : ℕ → ℕ) (xs : Bytes) (i v : ℕ) → modify f i (set xs i v) ≡ set xs i (f v)
unfolding modify
modify-set f [] i v = refl
modify-set f (x ∷ xs) zero v = refl
modify-set f (x ∷ xs) (suc i) v = ap (λ t. x ∷ t) (modify-set f xs i v)

-- The byte of the type and the flag.
abbrev pub type_byte : ℕ → Bool → ℕ
type_byte uint_type flag = if flag then uint_type % 128 + 128 else uint_type % 128

adjusted :
    (hash : Bytes) (uint_type zone : ℕ) (flag : Bool)
    → adjust_hash_for_metadata hash uint_type zone flag
      ≡ set (set hash 30 (type_byte uint_type flag)) 31 zone
unfolding adjust_hash_for_metadata
adjusted hash uint_type zone true =
    ap (λ t. set t 31 zone)
      (modify-set flagged hash 30 (uint_type % 128) ∙ ap (set hash 30) (omega arith))
adjusted hash uint_type zone false = refl

set_last_two :
    (xs : Bytes) (i b z : ℕ)
    → length xs ≡ suc (suc i)
    → set (set xs i b) (suc i) z ≡ take i xs ++ b ∷ z ∷ []
set_last_two [] i b z h = absurd (omega arith)
set_last_two (x ∷ []) i b z h = absurd (omega arith)
set_last_two (x ∷ y ∷ []) zero b z h = refl
set_last_two (x ∷ y ∷ w ∷ xs) zero b z h = absurd (omega arith)
set_last_two (x ∷ xs) (suc i) b z h = ap (λ t. x ∷ t) (set_last_two xs i b z (omega arith))

-- The adjusted form spelled out: thirty bytes of the hash, the type and the flag, the zone.
pub adjust_hash_for_metadata-eq :
    (hash : Bytes) (uint_type zone : ℕ) (flag : Bool)
    → length hash ≡ 32
    → adjust_hash_for_metadata hash uint_type zone flag
      ≡ take 30 hash ++ type_byte uint_type flag ∷ zone ∷ []
adjust_hash_for_metadata-eq hash uint_type zone flag h =
    adjusted hash uint_type zone flag ∙ set_last_two hash 30 (type_byte uint_type flag) zone h

-- The adjusted form of a 32-byte hash is a 32-byte hash with the same first thirty bytes, then one
-- byte that gives the type without its highest bit, and the flag in that bit, and one byte that is
-- the security zone.
pub adjust_hash_for_metadata_reads :
    (hash : Bytes) (uint_type zone : ℕ) (flag : Bool)
    → length hash ≡ 32
    → (length (adjust_hash_for_metadata hash uint_type zone flag) ≡ 32)
      × (take 30 (adjust_hash_for_metadata hash uint_type zone flag) ≡ take 30 hash)
      × (get_elem? (adjust_hash_for_metadata hash uint_type zone flag) 30
          ≡ some (type_byte uint_type flag))
      × (get_elem? (adjust_hash_for_metadata hash uint_type zone flag) 31 ≡ some zone)
adjust_hash_for_metadata_reads hash uint_type zone flag h =
    let b = type_byte uint_type flag in
    rw (adjusted hash uint_type zone flag) (
      omega (arith, length-set (set hash 30 b) 31 zone, length-set hash 30 b),
      take-set (set hash 30 b) 31 30 zone (omega arith) ∙ take-set hash 30 30 b (omega arith),
      get_elem?-set_before (set hash 30 b) 31 30 zone (omega arith)
          ∙ get_elem?-set hash 30 b (omega arith),
      get_elem?-set (set hash 30 b) 31 zone (omega (arith, length-set hash 30 b)),
    )

-- Adjusted 32-byte hashes that are equal were made for one zone, one type up to its highest bit,
-- and one flag.
pub adjust_hash_for_metadata-injective :
    (hash hash' : Bytes) (uint_type uint_type' zone zone' : ℕ) (flag flag' : Bool)
    → length hash ≡ 32
    → length hash' ≡ 32
    → adjust_hash_for_metadata hash uint_type zone flag
      ≡ adjust_hash_for_metadata hash' uint_type' zone' flag'
    → (uint_type % 128 ≡ uint_type' % 128) × (zone ≡ zone') × (flag ≡ flag')
adjust_hash_for_metadata-injective hash hash' ty ty' zone zone' flag flag' h h' e =
    let (_, _, typed, zoned) = adjust_hash_for_metadata_reads hash ty zone flag h in
    let (_, _, typed', zoned') = adjust_hash_for_metadata_reads hash' ty' zone' flag' h' in
    let types : type_byte ty flag ≡ type_byte ty' flag' =
      some-inj (sym typed ∙ ap (λ a. get_elem? a 30) e ∙ typed') in
    let (same_type, same_flag) = split_type ty ty' flag flag' types in
    (same_type, some-inj (sym zoned ∙ ap (λ a. get_elem? a 31) e ∙ zoned'), same_flag)
  where
    split_type :
        (ty ty' : ℕ) (flag flag' : Bool)
        → type_byte ty flag ≡ type_byte ty' flag'
        → (ty % 128 ≡ ty' % 128) × (flag ≡ flag')
    split_type ty ty' true true e = (omega arith, refl)
    split_type ty ty' true false e = absurd (omega arith)
    split_type ty ty' false true e = absurd (omega arith)
    split_type ty ty' false false e = (e, refl)
