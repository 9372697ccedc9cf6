-- ===== src/Api/Hash/Tests.antt =====
-- A hash of 32 bytes.
use zee_k_verifier.Prelude.{
  ℕ, Bytes, true, false, some, length, take, get_elem?, replicate, ◌≡◌, refl, ◌%◌,
}
use zee_k_verifier.Api.Hash.{adjust_hash_for_metadata}
use zee_k_verifier.Api.Hash.Laws.{
  adjust_hash_for_metadata_reads, adjust_hash_for_metadata-injective,
}

abbrev hash : Bytes
hash = replicate 32 170

adjust_hash_for_metadata_reads_example :
    (length (adjust_hash_for_metadata hash 5 2 false) ≡ 32)
    × (take 30 (adjust_hash_for_metadata hash 5 2 false) ≡ take 30 hash)
    × (get_elem? (adjust_hash_for_metadata hash 5 2 false) 30 ≡ some 5)
    × (get_elem? (adjust_hash_for_metadata hash 5 2 false) 31 ≡ some 2)
adjust_hash_for_metadata_reads_example = adjust_hash_for_metadata_reads hash 5 2 false refl

adjust_hash_for_metadata-injective_example :
    (133 % 128 ≡ 5 % 128) × (◌≡◌ {A = ℕ} 2 2) × (true ≡ true)
unfolding adjust_hash_for_metadata
adjust_hash_for_metadata-injective_example =
    adjust_hash_for_metadata-injective hash hash 133 5 2 2 true true refl refl refl
