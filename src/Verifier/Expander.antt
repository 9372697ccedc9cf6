-- ===== src/Verifier/Expander.antt =====
-- Serialising one ciphertext of an expanded list (zk-verifier/src/verifier/traits.rs), within the
-- limits of rust-common/src/safe_serde.rs.
use zee_k_verifier.Prelude.{
  ℕ, ◌^◌, ◌++◌, Bytes, Text, Option, none, some, Result, ok, err, map_err, ◌>>=◌, codes, subst,
  err-ne-ok, ◌≡◌, >>=-eq-ok, ok-injective,
}
use zee_k_verifier.Extern.Tfhe.{Tfhe, FheTypes, other, IsServed}

-- One gibibyte.
abbrev pub safe_serialization_size_limit : ℕ
safe_serialization_size_limit = 2 ^ 30

-- `.map(|ct| (ct_type, ct))`
abbrev pub with_type : FheTypes → Option Bytes → Option (FheTypes × Bytes)
with_type ct_type none = none
with_type ct_type (some ct) = some (ct_type, ct)

with_type-IsServed :
    (kind ct_type : FheTypes) (buf : Option Bytes) (bytes : Bytes)
    → IsServed kind
    → with_type kind buf ≡ some (ct_type, bytes)
    → IsServed ct_type
with_type-IsServed kind ct_type none bytes s e = absurd (cc)
with_type-IsServed kind ct_type (some ct) bytes s e =
    let same : kind ≡ ct_type = cc in subst IsServed same s

module _ (t : Tfhe) where
  -- `safe_serde::serialize`
  safe_serialize : t.CompressedCiphertext → Result Text Bytes
  safe_serialize value =
      map_err (λ e. codes "safe_serialize failed: " ++ e)
        (t.safe_serialize value safe_serialization_size_limit)

  -- `safe_serde::deserialize`, at the type of a proven list.
  unfoldable pub safe_deserialize : Bytes → Result Text t.ProvenCompactCiphertextList
  safe_deserialize bytes =
      map_err (λ e. codes "safe_deserialize failed: " ++ e)
        (t.safe_deserialize bytes safe_serialization_size_limit)

  serialize_found : Option t.Ciphertext → Result Text (Option Bytes)
  unfolding safe_serialize
  serialize_found none = ok none
  serialize_found (some ct) = do buf ← safe_serialize (t.compress ct); ok (some buf)

  -- `SerializeFromExpander::serialize` at the type for a kind.
  serialize : FheTypes → t.Expander → ℕ → Result Text (Option Bytes)
  unfolding serialize_found
  serialize ct_type expander index = do found ← t.get ct_type expander index; serialize_found found

  -- The match on the kind: thirty types are served, the rest are an error.
  serialize_kind : FheTypes → t.Expander → ℕ → Result Text (Option Bytes)
  unfolding serialize
  serialize_kind (other n) expander index =
      err (codes "Unsupported ciphertext type: " ++ t.debug (other n))
  serialize_kind ct_type expander index = serialize ct_type expander index

  serialize_index_at : Option FheTypes → t.Expander → ℕ → Result Text (Option (FheTypes × Bytes))
  unfolding serialize_kind
  serialize_index_at none expander index = ok none
  serialize_index_at (some ct_type) expander index = do
    buf ← serialize_kind ct_type expander index
    ok (with_type ct_type buf)

  -- `SerializeIndex::serialize_index`
  unfoldable pub serialize_index : t.Expander → ℕ → Result Text (Option (FheTypes × Bytes))
  unfolding serialize_index_at
  serialize_index expander index = serialize_index_at (t.get_kind_of expander index) expander index

  serialize_kind-IsServed :
      (ct_type : FheTypes) (expander : t.Expander) (index : ℕ) {buf : Option Bytes}
      → serialize_kind ct_type expander index ≡ ok buf
      → IsServed ct_type
  unfolding serialize_kind
  serialize_kind-IsServed (other n) expander index e = absurd (err-ne-ok e)
  serialize_kind-IsServed _ expander index e = tt

  serialize_index_at-IsServed :
      (found : Option FheTypes) (expander : t.Expander) (index : ℕ) (ct_type : FheTypes)
      (bytes : Bytes)
      → serialize_index_at found expander index ≡ ok (some (ct_type, bytes))
      → IsServed ct_type
  unfolding serialize_index_at
  serialize_index_at-IsServed none expander index ct_type bytes e = absurd (cc)
  serialize_index_at-IsServed (some kind) expander index ct_type bytes e =
      let (buf, done, built) = >>=-eq-ok (serialize_kind kind expander index) _ e in
      with_type-IsServed kind ct_type buf bytes (serialize_kind-IsServed kind expander index done)
        (ok-injective built)

  -- What is serialised is of a served type.
  pub serialize_index-IsServed :
      (expander : t.Expander) (index : ℕ) (ct_type : FheTypes) (bytes : Bytes)
      → serialize_index expander index ≡ ok (some (ct_type, bytes))
      → IsServed ct_type
  unfolding serialize_index
  serialize_index-IsServed expander index ct_type bytes e =
      serialize_index_at-IsServed (t.get_kind_of expander index) expander index ct_type bytes e
