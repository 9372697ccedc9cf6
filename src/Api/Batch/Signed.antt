-- ===== src/Api/Batch/Signed.antt =====
-- What comes before persisting, in verify_and_sign_batch of zk-verifier/src/api/mod.rs: where it
-- succeeds, and that no failure of it is a success to the client.
use zee_k_verifier.Prelude.{
  Option, none, some, Result, ok, err, map_err, ◌>>=◌, >>=-eq-ok, map_err-eq-ok, ok-injective,
  err-ne-ok, Text, ◌≡◌, refl, ap, arith, subst,
}
use zee_k_verifier.Extern.Hex.{Hex}
use zee_k_verifier.Extern.Crypto.{Crypto}
use zee_k_verifier.Extern.Tfhe.{Tfhe}
use zee_k_verifier.Verifier.{Verifier, verify_and_sign_batch}
use zee_k_verifier.Verifier.Expander.{safe_deserialize}
use zee_k_verifier.Api.Address.{canonical_contract_address}
use zee_k_verifier.Api.Persist.{Failure}
use zee_k_verifier.Api.Persist.Laws.{Honest}
use zee_k_verifier.Api.Batch.{
  VerifyRequest, spawned, gated, gated_verify, not_deserialized, verify_and_sign_batch_impl,
  verified, Batch,
}

module _ {A : Type 0} where
  gated_verify-eq-ok :
      (panic : Option Text) (result : Result Text A) (a : A)
      → gated_verify panic result ≡ ok a
      → (panic ≡ none) × (result ≡ ok a)
  unfolding gated_verify spawned gated
  gated_verify-eq-ok none (ok b) a e = (refl, ap ok (ok-injective e))
  gated_verify-eq-ok none (err why) a e = absurd (err-ne-ok e)
  gated_verify-eq-ok (some why) result a e = absurd (err-ne-ok e)

  gated_verify-Honest :
      (panic : Option Text) (result : Result Text A) → Honest (gated_verify panic result)
  unfolding gated_verify spawned gated
  gated_verify-Honest none (ok b) = tt
  gated_verify-Honest none (err why) = λ same. absurd (omega arith)
  gated_verify-Honest (some why) result = λ same. absurd (omega arith)

  Honest->>= :
      {B : Type 0} (m : Result Failure A) (f : A → Result Failure B)
      → Honest m
      → ((a : A) → Honest (f a))
      → Honest (m >>= f)
  Honest->>= (ok a) f p q = q a
  Honest->>= (err failure) f p q = p

  refused-Honest : (m : Result Text A) → Honest (map_err (λ e. (400, e)) m)
  refused-Honest (ok a) = tt
  refused-Honest (err e) = λ same. absurd (omega arith)

module _ (h : Hex) (c : Crypto) (t : Tfhe) (v : Verifier h c t) where
  -- The part before persisting, if it succeeds.
  pub record Signed (request : VerifyRequest) (canonical : Text) (batch : Batch h c t)
      : Type 0 where
    pub proven : t.ProvenCompactCiphertextList
    pub canonical_form : canonical_contract_address h request.contract_address ≡ ok canonical
    pub deserialized : safe_deserialize t request.packed_list ≡ ok proven
    pub signed :
        verify_and_sign_batch h c t v proven request.account_addr request.security_zone
          request.chain_id canonical
        ≡ ok batch

  pub verified-Signed :
      (panic : Option Text) (request : VerifyRequest) (canonical : Text) (batch : Batch h c t)
      → verified h c t v panic request ≡ ok (canonical, batch)
      → Signed request canonical batch
  unfolding verified verify_and_sign_batch_impl
  verified-Signed panic request canonical batch e =
      let (address, spelled, e2) =
        >>=-eq-ok (map_err _ (canonical_contract_address h request.contract_address)) _ e in
      let (got, ran, e3) =
        >>=-eq-ok (gated_verify panic (verify_and_sign_batch_impl h c t v request address)) _ e2 in
      let (_, result) = gated_verify-eq-ok panic _ got ran in
      let (proven, read, e4) =
        >>=-eq-ok (map_err not_deserialized (safe_deserialize t request.packed_list)) _ result in
      let same : (address, got) ≡ (canonical, batch) = ok-injective e3 in
      subst (λ r. Signed request r.0 r.1) same
        (record {
          proven = proven;
          canonical_form = map_err-eq-ok _ _ spelled;
          deserialized = map_err-eq-ok _ _ read;
          signed = map_err-eq-ok _ _ e4;
        })

  pub verified-Honest :
      (panic : Option Text) (request : VerifyRequest) → Honest (verified h c t v panic request)
  unfolding verified
  verified-Honest panic request =
      Honest->>= (map_err (λ e. (400, e)) (canonical_contract_address h request.contract_address)) _
        (refused-Honest (canonical_contract_address h request.contract_address))
        (λ canonical.
          Honest->>= (gated_verify panic (verify_and_sign_batch_impl h c t v request canonical)) _
            (gated_verify-Honest panic (verify_and_sign_batch_impl h c t v request canonical))
            (λ batch. tt))
