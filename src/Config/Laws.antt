-- ===== src/Config/Laws.antt =====
-- Which storage configurations are accepted.
use zee_k_verifier.Prelude.{◌<◌, ◌≤◌, false, [], ◌∷◌, Text, ok, ◌≡◌, ◌≢◌, refl, ◌↔◌, arith}
use zee_k_verifier.Config.{StorageConfig, validate, is_empty}

-- What the rest of the code relies on.
pub record IsUsable (s : StorageConfig) : Type 0 where
  pub named : s.bucket ≢ []
  pub waits : 0 < s.upload_timeout_secs
  pub retries : 0 < s.retry_config.max_retries
  pub ordered : s.retry_config.initial_delay_ms ≤ s.retry_config.max_delay_ms

is_empty-of-ne : (t : Text) → t ≢ [] → is_empty t ≡ false
unfolding is_empty
is_empty-of-ne [] h = absurd (h refl)
is_empty-of-ne (c ∷ t) h = refl

ne_of_is_empty : (t : Text) → is_empty t ≡ false → t ≢ []
unfolding is_empty
ne_of_is_empty [] h = cc
ne_of_is_empty (c ∷ t) h = cc

-- Validation passes exactly when the bucket has a name, the upload timeout and the number of
-- retries are positive, and the first delay is at most the longest; equal delays pass.
pub validate_iff : (s : StorageConfig) → (validate s ≡ ok tt) ↔ IsUsable s
unfolding validate
validate_iff s = (
  λ e. record {
    named = ne_of_is_empty s.bucket (ground arith);
    waits = ground arith;
    retries = ground arith;
    ordered = ground arith;
  },
  λ u. ground (arith, is_empty-of-ne s.bucket u.named),
)
