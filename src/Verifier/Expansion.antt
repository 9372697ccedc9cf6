-- ===== src/Verifier/Expansion.antt =====
-- The loop over the expanded list: each round in order, and all of them.
use mathlib.Core.List.{append_assoc, append-nil}
use zee_k_verifier.Prelude.{
  ℕ, zero, suc, ◌+◌, List, [], ◌∷◌, ◌++◌, length, Result, ok, ◌≡◌, refl, sym, ap, ◌∙◌, >>=-eq-ok,
  ok-injective,
}
use zee_k_verifier.Verifier.{expand_from}

-- The items of a list are what the rounds from an index on return.
abbrev pub Rounds : {E A : Type 0} → (ℕ → Result E A) → ℕ → List A → Type 0
Rounds round i [] = Unit
Rounds round i (ct ∷ cts) = (round i ≡ ok ct) × Rounds round (i + 1) cts

pub expand_from_sound :
    {E A : Type 0} (round : ℕ → Result E A) (left i : ℕ) (pushed out : List A)
    → expand_from round left i pushed ≡ ok out
    → (rest : List A) × (out ≡ pushed ++ rest) × (length rest ≡ left) × Rounds round i rest
unfolding expand_from
expand_from_sound round zero i pushed out e =
    ([], sym (ok-injective e) ∙ sym (append-nil pushed), refl, tt)
expand_from_sound round (suc left) i pushed out e =
    let (ct, now, later) = >>=-eq-ok (round i) _ e in
    let (rest, same, count, rounds) =
      expand_from_sound round left (i + 1) (pushed ++ ct ∷ []) out later in
    (ct ∷ rest, same ∙ append_assoc pushed (ct ∷ []) rest, ap suc count, (now, rounds))

pub expand_from_complete :
    {E A : Type 0} (round : ℕ → Result E A) (i : ℕ) (pushed rest : List A)
    → Rounds round i rest
    → expand_from round (length rest) i pushed ≡ ok (pushed ++ rest)
unfolding expand_from
expand_from_complete round i pushed [] h = rw append-nil
expand_from_complete round i pushed (ct ∷ rest) h = rw h.0 (
    expand_from_complete round (i + 1) (pushed ++ ct ∷ []) rest h.1
    ∙ ap ok (append_assoc pushed (ct ∷ []) rest))
