-- ===== src/Storage/Objects/Tests.antt =====
-- The metadata of a ciphertext, as the bucket sees it.
use zee_k_verifier.Prelude.{◌≡◌, refl, [], some, codes, decimal, text_eq}
use zee_k_verifier.Storage.Objects.{CtMetadata, ct_to_map, value_to_string, lookup}

abbrev metadata : CtMetadata
metadata = record {
  ct_hash = [];
  proof_id = [];
  account_addr = [];
  security_zone = 2;
  chain_id = 421614;
  ct_index = 0;
  ct_type = 3;
  timestamp = [];
}

chain_test : lookup (codes "chain_id") (ct_to_map (λ ts. []) metadata) ≡ some (codes "421614")
unfolding ct_to_map value_to_string lookup text_eq codes decimal
chain_test = refl
