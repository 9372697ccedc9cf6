-- ===== src/Api/Address.antt =====
-- The one spelling of a contract address (zk-verifier/src/api/mod.rs).
pub mod Laws
mod Tests
use zee_k_verifier.Prelude.{
  ℕ, List, [], ◌∷◌, ◌++◌, length, Bytes, Text, Result, ok, err, map_err, ◌>>=◌, codes, decimal,
  without_0x, with_0x, ◌==◌, if◌then◌else◌,
}
use zee_k_verifier.Extern.Hex.{Hex}

sized : Hex → Bytes → Result Text Text
unfolding codes
sized h bytes =
    if length bytes == 20
    then ok (with_0x (h.encode bytes))
    else err (codes "contract_address must be 20 bytes, got " ++ decimal (length bytes))

pub not_hex : Text → Text
unfolding codes
not_hex e = codes "contract_address is not hex: " ++ e

-- `0x` and the digits of twenty bytes, from any spelling.
unfoldable pub canonical_contract_address : Hex → Text → Result Text Text
unfolding sized
canonical_contract_address h raw = do
  bytes ← map_err not_hex (h.decode (without_0x raw))
  sized h bytes
