-- ===== src/Extern/CofheKeys.antt =====
-- The crate `cofhe-keys`: the environments baked into it, the reader that reconstructs the signer
-- from the partners' shares, the public material, and the token clients.
use zee_k_verifier.Prelude.{ℕ, ◌≤◌, List, length, Result, ok, Bytes, Text, ◌≡◌}

pub record PartnerRef : Type 0 where
  pub project_id : Text
  pub secret_id : Text
  pub wip_audience : Text

pub record PartnerAccess : Type 0 where
  pub partner : PartnerRef
  pub sm_token : Text

-- An entry of the baked map, as far as the code reads it.
pub record Baked : Type 0 where
  pub shamir_threshold : ℕ
  pub public_bucket : Text
  pub manifest_object : Text
  pub share_version : ℕ

pub record PublicMaterial : Type 0 where
  pub crs_digest : Bytes
  pub compact_public_key_digest : Bytes
  pub server_key_digest : Bytes
  pub zk_signer_address : Text

pub record ReaderContext : Type 0 where
  pub gcs_token : Text
  pub public_bucket : Text
  pub public_object : Text

pub record CofheKeys : Type 0 where
  -- `reader::lookup`, `reader::partner_refs`, `shamir::MIN_THRESHOLD`
  pub lookup : Text → Result Text Baked
  pub partner_refs : Baked → Text → Text → Result Text (List PartnerRef)
  pub min_threshold : ℕ
  -- `GcpAuth::exchange`, `MetadataClient::token`
  pub exchange : Text → Text → Result Text Text
  pub metadata_token : Result Text Text
  -- `reader::read_zk_signer`: the bytes of the reconstructed share, from the accesses, the threshold
  -- and the version to read.
  pub read_zk_signer : ReaderContext → List PartnerAccess → ℕ → ℕ → Result Text Bytes
  -- `reader::read_public`, `PublicMaterial::from_canonical_bytes`, `verify_artifact`
  pub read_public : Text → Text → Text → Result Text Bytes
  pub from_canonical_bytes : Bytes → Result Text PublicMaterial
  pub verify_artifact : Bytes → Bytes → Text → Result Text (Unit {0})

-- The reader needs a share from as many partners as the threshold says, and an artifact passes only
-- with the SHA-256 digest that it is checked against.
pub record IsCofheKeys (k : CofheKeys) (sha256 : Bytes → Bytes) : Type 0 where
  pub enough :
      (ctx : ReaderContext) (accesses : List PartnerAccess) (threshold version : ℕ) (share : Bytes)
      → k.read_zk_signer ctx accesses threshold version ≡ ok share
      → threshold ≤ length accesses
  pub digest :
      (bytes digest : Bytes) (name : Text)
      → k.verify_artifact bytes digest name ≡ ok tt
      → sha256 bytes ≡ digest
