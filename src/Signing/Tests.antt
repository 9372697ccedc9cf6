-- ===== src/Signing/Tests.antt =====
-- Messages and signatures at small inputs, as the tests of rust-common/src/signing have them.
use zee_k_verifier.Prelude.{◌≡◌, refl, Bool, true, [], ◌∷◌, Text, codes, ok, some, false}
use zee_k_verifier.Samples.HexCrate
use zee_k_verifier.Samples.HexCrate.{sample-IsHex}
use zee_k_verifier.Samples.CryptoCrate
use zee_k_verifier.Samples.CryptoCrate.{sample-IsCrypto}
use zee_k_verifier.Signing.Message.{str, u8, u64, i32, negsuc, pos, new, ◌add◌, build}
use zee_k_verifier.Signing.Signer.{
  Signer, evm, from_str, raw, sign_prehash, sign_prehash_to_hex_with_format,
}
use zee_k_verifier.Signing.Signer.Laws.{sign_prehash_sound}

abbrev signer : Signer CryptoCrate.sample
signer = record { signing_key = 7 }

message_tests :
    (build (new add u64 0x0102030405060708) ≡ 1 ∷ 2 ∷ 3 ∷ 4 ∷ 5 ∷ 6 ∷ 7 ∷ 8 ∷ [])
    × (build (new add i32 (pos 1)) ≡ 0 ∷ 0 ∷ 0 ∷ 1 ∷ [])
    × (build (new add i32 (negsuc 0)) ≡ 255 ∷ 255 ∷ 255 ∷ 255 ∷ [])
    × (build (new add str (codes "hi") add u8 9) ≡ b'h' ∷ b'i' ∷ 9 ∷ [])
unfolding build ◌add◌ codes
message_tests = (refl, refl, refl, refl)

from_str_tests : (from_str (codes "EvM") ≡ evm) × (from_str (codes "raw") ≡ raw)
unfolding from_str
from_str_tests = (refl, refl)

signed : sign_prehash CryptoCrate.sample signer (1 ∷ []) ≡ ok ((false, 7), (true, false))
unfolding sign_prehash
signed = refl

sign_prehash_sound_example :
    (◌≡◌ {A = Bool} false false) × (CryptoCrate.recover (1 ∷ []) (false, 7) (true, false) ≡ some 7)
sign_prehash_sound_example =
    sign_prehash_sound CryptoCrate.sample sample-IsCrypto signer (1 ∷ []) (false, 7) (true, false)
      signed

written :
    (text : Text) × (sign_prehash_to_hex_with_format CryptoCrate.sample HexCrate.sample signer
        (1 ∷ [])
        evm
      ≡ ok text)
unfolding sign_prehash_to_hex_with_format
written = (_, refl)
