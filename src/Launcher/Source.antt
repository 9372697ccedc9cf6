-- ===== src/Launcher/Source.antt =====
-- Where the launcher reads from (tdx-signer/src/main.rs): the environment, the baked map, the
-- accesses of the partners, and the names of the artifacts.
use zee_k_verifier.Prelude.{
  ℕ, ◌+◌, ◌-◌, ◌/◌, ◌%◌, List, [], ◌∷◌, ◌++◌, Option, none, some, Result, ok, err, ok_or, ◌>>=◌,
  Bytes, Text, codes, decimal, length, take, ltb, text_eq, ◌==◌, if◌then◌else◌,
}
use zee_k_verifier.Extern.CofheKeys.{CofheKeys, PartnerRef, PartnerAccess, Baked}

-- `&s[..s.rfind('/')]`
unfoldable pub before_last_slash : Text → Option Text
before_last_slash [] = none
before_last_slash (c ∷ s) = elim (before_last_slash s) [
  | some before ↦ some (c ∷ before)
  | none ↦ if c == b'/' then some [] else none
]

unfoldable pub sibling_object : Text → Text → Text
unfolding before_last_slash
sibling_object public_object name = elim (before_last_slash public_object) [
  | some directory ↦ directory ++ (b'/' ∷ name)
  | none ↦ name
]

-- `format!("{b:02x}")`
hex_digit : ℕ → ℕ
hex_digit n = if ltb n 10 then b'0' + n else b'a' + (n - 10)

hex_pairs : Bytes → Text
unfolding hex_digit
hex_pairs [] = []
hex_pairs (b ∷ bytes) = hex_digit (b / 16) ∷ hex_digit (b % 16) ∷ hex_pairs bytes

-- The eight digits that a log line shows of an artifact.
unfoldable pub key_hash : Bytes → Text
unfolding hex_pairs
key_hash digest = hex_pairs (take 4 digest)

-- The overlay of an environment; `include_str` is the text of a file that is compiled in, `debug` is
-- how `{:?}` prints a text.
unfoldable pub env_overlay : (debug include_str : Text → Text) → Text → Result Text Text
unfolding codes text_eq
env_overlay debug include_str env =
    if text_eq env (codes "staging")
    then ok (include_str (codes "envs/staging.toml"))
    else if text_eq env (codes "testnet")
    then ok (include_str (codes "envs/testnet.toml"))
    else if text_eq env (codes "mainnet")
    then ok (include_str (codes "envs/mainnet.toml"))
    else err (codes "no baked runtime config overlay for environment " ++ debug env)

pub record Config : Type 0 where
  pub env : Text
  pub partners : List PartnerRef
  pub threshold : ℕ
  pub public_bucket : Text
  pub public_object : Text
  pub share_version : ℕ
  pub store_cts_endpoint : Text

abbrev pub zk_signer_secret : Text
unfolding codes
zk_signer_secret = codes "cofhe-tee-zk-signer"

-- A variable of the environment, by its name.
unfoldable pub env_var : (Text → Option Text) → Text → Result Text Text
unfolding codes
env_var vars key = ok_or (codes "env var " ++ (key ++ codes " not set")) (vars key)

module _ (k : CofheKeys) where
  unfoldable pub threshold_error : Baked → List PartnerRef → Option Text
  unfolding codes decimal
  threshold_error baked partners =
      if ltb baked.shamir_threshold k.min_threshold
      then some (
          codes "baked Shamir threshold must be >= "
          ++ (decimal k.min_threshold ++ codes " (vsss Gf256 minimum)"))
      else if ltb (length partners) baked.shamir_threshold
      then some (
          codes "baked Shamir threshold ("
          ++ (decimal baked.shamir_threshold
              ++ (codes ") exceeds the number of partners ("
                  ++ (decimal (length partners) ++ codes ")"))))
      else none

  -- `anyhow::bail!`
  abbrev pub bail : Option Text → Result Text (Unit {0})
  bail none = ok tt
  bail (some why) = err why

  -- `Config::from_env`
  unfoldable pub from_env : (Text → Option Text) → Result Text Config
  unfolding codes env_var threshold_error
  from_env vars = do
    env_name ← env_var vars (codes "COFHE_ENV")
    baked ← k.lookup env_name
    partners ← k.partner_refs baked (codes "zee-k") zk_signer_secret
    fits ← bail (threshold_error baked partners)
    endpoint ← env_var vars (codes "STORE_CTS_ENDPOINT")
    ok (record {
      env = env_name;
      partners = partners;
      threshold = baked.shamir_threshold;
      public_bucket = baked.public_bucket;
      public_object = baked.manifest_object;
      share_version = baked.share_version;
      store_cts_endpoint = endpoint;
    })

-- `tokens.iter().find(|(project_id, _)| *project_id == id)`, and its token.
unfoldable pub token_for : Text → List (Text × Text) → Option Text
unfolding text_eq
token_for id [] = none
token_for id ((project_id, token) ∷ tokens) =
    let later = token_for id tokens in if text_eq project_id id then some token else later

-- A partner without a token is left out.
unfoldable pub with_access : PartnerRef → Option Text → List PartnerAccess → List PartnerAccess
with_access p none rest = rest
with_access p (some token) rest = record { partner = p; sm_token = token } ∷ rest

-- The partners that have a token, in their order, each with the first token of its project.
unfoldable pub partner_accesses : List PartnerRef → List (Text × Text) → List PartnerAccess
unfolding token_for with_access
partner_accesses [] tokens = []
partner_accesses (p ∷ partners) tokens =
    with_access p (token_for p.project_id tokens) (partner_accesses partners tokens)
