-- ===== src/Launcher/Accesses.antt =====
-- Whose tokens the partners' shares are read with.
use zee_k_verifier.Prelude.{
  List, [], ◌∷◌, ◌++◌, Option, none, some, ok, Text, All, All-append, text_eq, text_eq_sound, ◌≡◌,
  refl, subst, inl, inr, Bool-cases, Result-cases, some-inj, none-ne-some,
}
use zee_k_verifier.Extern.CofheKeys.{CofheKeys, PartnerRef, PartnerAccess}
use zee_k_verifier.Launcher.Source.{token_for, with_access, partner_accesses}
use zee_k_verifier.Launcher.Boot.{Host, federate, partner_tokens}

module _ (k : CofheKeys) (host : Host) where
  -- A token of a project, minted for a partner of that project.
  abbrev pub IsMinted : Text × Text → Type 0
  IsMinted token = (p : PartnerRef) × (p.project_id ≡ token.0) × (federate k host p ≡ ok token.1)

  partner_tokens-IsMinted :
      (partners : List PartnerRef) (tokens : List (Text × Text))
      → All IsMinted tokens
      → All IsMinted (partner_tokens k host partners tokens)
  unfolding partner_tokens
  partner_tokens-IsMinted [] tokens h = h
  partner_tokens-IsMinted (p ∷ partners) tokens h = elim (Result-cases (federate k host p)) [
    | inl (token, minted) ↦ rw minted (
        partner_tokens-IsMinted partners (tokens ++ (p.project_id, token) ∷ [])
          (All-append IsMinted tokens ((p.project_id, token) ∷ []) h ((p, refl, minted), tt)))
    | inr (e, failed) ↦ rw failed (partner_tokens-IsMinted partners tokens h)
  ]

  token_for-IsMinted :
      (id token : Text) (tokens : List (Text × Text))
      → All IsMinted tokens
      → token_for id tokens ≡ some token
      → IsMinted (id, token)
  unfolding token_for
  token_for-IsMinted id token [] h e = absurd (none-ne-some e)
  token_for-IsMinted id token ((project, own) ∷ tokens) h e =
      elim (Bool-cases (text_eq project id)) [
        | inl same ↦
            let ids : project ≡ id = text_eq_sound project id same in
            let owns : own ≡ token = some-inj (rw same at e) in
            subst (λ x. IsMinted (x, token)) ids (subst (λ x. IsMinted (project, x)) owns h.0)
        | inr differ ↦ token_for-IsMinted id token tokens h.1 (rw differ at e)
      ]

  -- An access carries a token that was minted for a partner of its project.
  abbrev pub IsFederated : PartnerAccess → Type 0
  IsFederated a = IsMinted (a.partner.project_id, a.sm_token)

  with_access-IsFederated :
      (p : PartnerRef) (found : Option Text) (rest : List PartnerAccess)
      → ((token : Text) → found ≡ some token → IsMinted (p.project_id, token))
      → All IsFederated rest
      → All IsFederated (with_access p found rest)
  unfolding with_access
  with_access-IsFederated p none rest h all = all
  with_access-IsFederated p (some token) rest h all = (h token refl, all)

  partner_accesses-IsFederated :
      (partners : List PartnerRef) (tokens : List (Text × Text))
      → All IsMinted tokens
      → All IsFederated (partner_accesses partners tokens)
  unfolding partner_accesses
  partner_accesses-IsFederated [] tokens h = tt
  partner_accesses-IsFederated (p ∷ partners) tokens h =
      with_access-IsFederated p (token_for p.project_id tokens) (partner_accesses partners tokens)
        (λ token found. token_for-IsMinted p.project_id token tokens h found)
        (partner_accesses-IsFederated partners tokens h)

  -- Every share is read with a token that was minted for a partner of its project.
  pub accesses-IsFederated :
      (partners : List PartnerRef)
      → All IsFederated (partner_accesses partners (partner_tokens k host partners []))
  accesses-IsFederated partners =
      partner_accesses-IsFederated partners (partner_tokens k host partners [])
        (partner_tokens-IsMinted partners [] tt)
