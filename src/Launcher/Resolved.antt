-- ===== src/Launcher/Resolved.antt =====
-- The source that the environment names.
use zee_k_verifier.Prelude.{
  ◌≤◌, List, length, Option, some, ok, ok_or, Text, codes, ltb, ◌≡◌, refl, subst, inl, inr,
  Bool-cases, >>=-eq-ok, ok_or-eq-ok, ok-injective, err-ne-ok, arith,
}
use zee_k_verifier.Extern.CofheKeys.{CofheKeys, Baked, PartnerRef}
use zee_k_verifier.Launcher.Source.{
  Config, zk_signer_secret, env_var, from_env, threshold_error, bail,
}

-- The reader's source: baked for the named environment, with a threshold that its partners can
-- meet, and the endpoint of the environment.
pub record IsResolved (k : CofheKeys) (vars : Text → Option Text) (cfg : Config) : Type 0 where
  pub baked : Baked
  pub named : vars (codes "COFHE_ENV") ≡ some cfg.env
  pub looked_up : k.lookup cfg.env ≡ ok baked
  pub refs : k.partner_refs baked (codes "zee-k") zk_signer_secret ≡ ok cfg.partners
  pub share_version : cfg.share_version ≡ baked.share_version
  pub public_object : cfg.public_object ≡ baked.manifest_object
  pub threshold : cfg.threshold ≡ baked.shamir_threshold
  pub at_least : k.min_threshold ≤ cfg.threshold
  pub at_most : cfg.threshold ≤ length cfg.partners
  pub endpoint : vars (codes "STORE_CTS_ENDPOINT") ≡ some cfg.store_cts_endpoint

bail-eq-ok :
    (k : CofheKeys) (baked : Baked) (partners : List PartnerRef)
    → bail k (threshold_error k baked partners) ≡ ok tt
    → (k.min_threshold ≤ baked.shamir_threshold) × (baked.shamir_threshold ≤ length partners)
unfolding threshold_error
bail-eq-ok k baked partners e = elim (Bool-cases (ltb baked.shamir_threshold k.min_threshold)) [
  | inl low ↦ absurd (err-ne-ok (rw low at e))
  | inr enough ↦ elim (Bool-cases (ltb (length partners) baked.shamir_threshold)) [
    | inl high ↦ absurd (err-ne-ok (rw (enough, high) at e))
    | inr within ↦ (ground arith, ground arith)
  ]
]

pub from_env-IsResolved :
    (k : CofheKeys) (vars : Text → Option Text) (cfg : Config)
    → from_env k vars ≡ ok cfg
    → IsResolved k vars cfg
unfolding from_env env_var
from_env-IsResolved k vars cfg e =
    let (env_name, named, e1) = >>=-eq-ok (ok_or _ (vars (codes "COFHE_ENV"))) _ e in
    let (baked, looked_up, e2) = >>=-eq-ok (k.lookup env_name) _ e1 in
    let (partners, refs, e3) = >>=-eq-ok (k.partner_refs baked _ _) _ e2 in
    let (_, fits, e4) = >>=-eq-ok (bail k (threshold_error k baked partners)) _ e3 in
    let (endpoint, given, built) = >>=-eq-ok (ok_or _ (vars (codes "STORE_CTS_ENDPOINT"))) _ e4 in
    let (low, high) = bail-eq-ok k baked partners fits in
    subst (IsResolved k vars) (ok-injective built) (record {
      baked = baked;
      named = ok_or-eq-ok _ _ named;
      looked_up = looked_up;
      refs = refs;
      share_version = refl;
      public_object = refl;
      threshold = refl;
      at_least = low;
      at_most = high;
      endpoint = ok_or-eq-ok _ _ given;
    })
