-- ===== src/Launcher/Laws.antt =====
-- What the launcher has established when the server does anything.
use zee_k_verifier.Prelude.{Bytes, to_ascii_lowercase, ◌≡◌}
use zee_k_verifier.Config
use zee_k_verifier.Extern.Hex.{Hex}
use zee_k_verifier.Extern.Crypto.{Crypto}
use zee_k_verifier.Extern.Tfhe.{Tfhe}
use zee_k_verifier.Extern.TfheKeys.{TfheKeys}
use zee_k_verifier.Extern.PublicKeys.{PublicKeys}
use zee_k_verifier.Extern.CofheKeys.{CofheKeys}
use zee_k_verifier.Keys.{KeyMaterial}
use zee_k_verifier.Keys.Laws.{address_of}
use zee_k_verifier.Launcher.Boot.{Host}
use zee_k_verifier.Launcher.Material.{IsPrepared}

module _ (c : Crypto) (t : Tfhe) (tk : TfheKeys t) (k : CofheKeys) (host : Host)
    (sha256 : Bytes → Bytes) (h : Hex) where
  -- What was prepared, and that its signer is the published one.
  pub record Launches : Type 0 where
    pub config : Config.Config
    pub keys : KeyMaterial c t
    pub material : IsPrepared c t tk k host sha256 config keys
    pub signer_published :
        to_ascii_lowercase (address_of h c keys.signer_pk)
        ≡ to_ascii_lowercase material.public.zk_signer_address
