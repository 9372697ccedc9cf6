-- ===== src/Api/StoreCts.antt =====
-- Handing verified ciphertexts to the StoreCts endpoint (zk-verifier/src/api/mod.rs).
pub mod Laws
mod Tests
use zee_k_verifier.Prelude.{
  ℕ, zero, suc, ◌+◌, ◌*◌, ◌%◌, ◌^◌, Bool, true, false, ◌&&◌, List, [], ◌∷◌, ◌++◌, map, Result, ok,
  err, Bytes, Text, codes, decimal, with_0x, leb, if◌then◌else◌,
}
use zee_k_verifier.Extern.Hex.{Hex}
use zee_k_verifier.Extern.Tfhe.{Tfhe}
use zee_k_verifier.Verifier.{VerifiedCt}

pub record StoreCtsEntry : Type 0 where
  pub utype : ℕ
  pub value : Text
  pub security_zone : ℕ

pub record StoreCtsRequest : Type 0 where
  pub cts : List StoreCtsEntry
  pub chain_id : ℕ
  pub signature : Text

-- How a POST ends: a response with its status and the text of it, or no response.
pub data Answer : Type 0 where
  response : (status : ℕ) (shown : Text) → Answer
  unreachable : Text → Answer

-- The HTTP client on a world: the body goes to an address.
abbrev pub Post : Type 0 → Type 0
Post W = Text → StoreCtsRequest → W → Answer × W

abbrev pub is_success : ℕ → Bool
is_success status = leb 200 status && leb status 299

answered : Text → Answer → Result Text (Unit {0})
unfolding codes
answered endpoint (response status shown) =
    if is_success status
    then ok tt
    else err (codes "Service returned error at endpoint " ++ endpoint ++ codes ": " ++ shown)
answered endpoint (unreachable e) =
    err (codes "Failed to contact service at endpoint " ++ endpoint ++ codes ": " ++ e)

unfoldable pub store_cts_internally :
    {W : Type 0} → Post W → Text → ℕ → List StoreCtsEntry → W → Result Text (Unit {0}) × W
unfolding answered codes
store_cts_internally post endpoint chain_id updates w =
    let path = endpoint ++ codes "/StoreCts" in
    let request : StoreCtsRequest = record {
      cts = updates;
      chain_id = chain_id;
      signature = codes "toml";
    } in
    let (answer, w') = post path request w in (answered path answer, w')

-- What a run does beside its calls: a counted retry, a sleep in milliseconds, and its outcome
-- counted once, `true` for "success" and `false` for "error".
pub data StoreCtsEffect : Type 0 where
  retried : StoreCtsEffect
  slept : ℕ → StoreCtsEffect
  stored : Bool → StoreCtsEffect

pub record StoreCtsRun (W : Type 0) : Type 0 where
  pub result : Result Text (Unit {0})
  pub world : W
  pub effects : List StoreCtsEffect

module _ {W : Type 0} (attempt : W → Result Text (Unit {0}) × W) (failure : Text → Text) where
  -- The loop, by the retries left; a doubled delay is a `u64`.
  unfoldable pub store_cts_loop :
      (retries_left delay_ms : ℕ) → W → List StoreCtsEffect → StoreCtsRun W
  store_cts_loop zero delay_ms w effects =
      let (outcome, w') = attempt w in
      elim outcome [
        | ok _ ↦ record { result = ok tt; world = w'; effects = effects ++ stored true ∷ [] }
        | err e ↦ record {
          result = err (failure e);
          world = w';
          effects = effects ++ stored false ∷ [];
        }
      ]
  store_cts_loop (suc retries_left) delay_ms w effects =
      let (outcome, w') = attempt w in
      elim outcome [
        | ok _ ↦ record { result = ok tt; world = w'; effects = effects ++ stored true ∷ [] }
        | err e ↦
            store_cts_loop retries_left (delay_ms * 2 % 2 ^ 64) w'
              (effects ++ retried ∷ slept delay_ms ∷ [])
      ]

pub failure_message : ℕ → Text → Text → Text
unfolding codes
failure_message max_retries log_context e =
    codes "Failed to store ciphertexts internally after "
    ++ decimal max_retries
    ++ codes " attempts for "
    ++ log_context
    ++ codes ": "
    ++ e

module _ (h : Hex) (t : Tfhe) where
  abbrev pub entry : ℕ → VerifiedCt → StoreCtsEntry
  entry security_zone verified = record {
    utype = t.discriminant verified.ct_type;
    value = with_0x (h.encode verified.ct_bytes);
    security_zone = security_zone;
  }

  unfoldable pub store_cts_internally_retryable :
      {W : Type 0} → Post W → Text → Text → List VerifiedCt → ℕ → ℕ → ℕ → ℕ → W → StoreCtsRun W
  unfolding store_cts_loop store_cts_internally
  store_cts_internally_retryable post log_context endpoint verified_cts chain_id security_zone
        max_retries initial_delay_ms w =
      let updates = map (entry security_zone) verified_cts in
      store_cts_loop (store_cts_internally post endpoint chain_id updates)
        (failure_message max_retries log_context) max_retries initial_delay_ms w []
