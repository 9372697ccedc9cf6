-- ===== src/Api/Address/Tests.antt =====
-- Two spellings of one address, with the sample crate.
use zee_k_verifier.Prelude.{
  Text, ok, codes, without_0x, with_0x, length, true, ◌≡◌, ◌↔◌, refl, eq_ignore_ascii_case,
  strip_prefix,
}
use zee_k_verifier.Samples.HexCrate.{sample, sample-IsHex, decode, encode}
use zee_k_verifier.Api.Address.{canonical_contract_address, sized}
use zee_k_verifier.Api.Address.Laws.{
  canonical_contract_address_stable, canonical_contract_address_iff,
}

abbrev upper : Text
unfolding codes
upper = codes "ABCDEF0000000000000000000000000000000001"

abbrev prefixed : Text
unfolding codes
prefixed = codes "0xabcdef0000000000000000000000000000000001"

upper_test : canonical_contract_address sample upper ≡ ok prefixed
unfolding canonical_contract_address sized decode encode without_0x strip_prefix with_0x
upper_test = refl

prefixed_test : canonical_contract_address sample prefixed ≡ ok prefixed
unfolding canonical_contract_address sized decode encode without_0x strip_prefix with_0x
prefixed_test = refl

canonical_contract_address_stable_example :
    (length prefixed ≡ 42)
    × (sample.decode (without_0x prefixed) ≡ sample.decode (without_0x upper))
    × (canonical_contract_address sample prefixed ≡ ok prefixed)
canonical_contract_address_stable_example =
    canonical_contract_address_stable sample sample-IsHex upper prefixed upper_test

canonical_contract_address_iff_example :
    (prefixed ≡ prefixed) ↔ (eq_ignore_ascii_case (without_0x upper) (without_0x prefixed) ≡ true)
canonical_contract_address_iff_example =
    canonical_contract_address_iff sample sample-IsHex upper prefixed prefixed prefixed upper_test
      prefixed_test
