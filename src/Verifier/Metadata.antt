-- ===== src/Verifier/Metadata.antt =====
-- The metadata that a proof is bound to names one request.
use zee_k_verifier.Prelude.{
  ℕ, ◌<◌, ◌^◌, ◌∷◌, ◌++◌, Bytes, length, ◌≡◌, sym, ◌∙◌, append-injective_last,
}
use zee_k_verifier.CtSigner.{chain_id_bytes}
use zee_k_verifier.CtSigner.Messages.{length-chain_id_bytes, chain_id_bytes-injective}
use zee_k_verifier.Verifier.{reconstruct_metadata}

pub record SameRequest (account account' : Bytes) (zone zone' chain chain' : ℕ)
    (contract contract' : Bytes) : Type 0 where
  pub account_eq : account ≡ account'
  pub zone_eq : zone ≡ zone'
  pub chain_eq : chain ≡ chain'
  pub contract_eq : contract ≡ contract'

-- Equal metadata name one account, security zone, chain and contract, if the contracts have one
-- length and the chain ids fit 32 bits. The accounts may have any length, also different ones.
pub reconstruct_metadata-injective :
    (account account' : Bytes) (zone zone' chain chain' : ℕ) (contract contract' : Bytes)
    → length contract ≡ length contract'
    → chain < 2 ^ 32
    → chain' < 2 ^ 32
    → reconstruct_metadata account zone chain contract
      ≡ reconstruct_metadata account' zone' chain' contract'
    → SameRequest account account' zone zone' chain chain' contract contract'
unfolding reconstruct_metadata
reconstruct_metadata-injective acc acc' sz sz' n n' con con' lc ln ln' e =
    let (e2, contracts) =
      append-injective_last ((sz ∷ acc) ++ chain_id_bytes n) con ((sz' ∷ acc') ++ chain_id_bytes n')
        con' lc e in
    let (e1, chains) =
      append-injective_last (sz ∷ acc) (chain_id_bytes n) (sz' ∷ acc') (chain_id_bytes n')
        (length-chain_id_bytes n ∙ sym (length-chain_id_bytes n')) e2 in
    record {
      account_eq = cc e1;
      zone_eq = cc e1;
      chain_eq = chain_id_bytes-injective n n' ln ln' chains;
      contract_eq = contracts;
    }
