-- ===== src/Telemetry/Shells.antt =====
-- What the open shells of a chunk are worth in points.
use mathlib.Core.List.{append_assoc, append-nil}
use zee_k_verifier.Prelude.{
  ℕ, zero, suc, ◌-◌, ◌≤◌, List, [], ◌∷◌, ◌++◌, length, take, drop, map, ◌≡◌, refl, sym, ap, ◌∙◌,
  arith,
}
use zee_k_verifier.Extern.Otlp.{Otlp, Metric, ScopeMetrics, ResourceMetrics, Request}
use zee_k_verifier.Telemetry.Split.{slice, in_last, resource_shell, scope_shell, add_metric}
use zee_k_verifier.Telemetry.Rows.{
  Row, tagged, points_of, metrics_rows, scopes_rows, rows, in_last-append,
}

-- The points up to one index and those from there to another.
pub take-slice :
    {A : Type 0} (start end : ℕ) (xs : List A)
    → start ≤ end
    → take start xs ++ slice start end xs ≡ take end xs
take-slice zero end xs le = ap (λ n. take n xs) (omega arith)
take-slice (suc start) zero xs le = absurd (omega (arith, le))
take-slice (suc start) (suc end) [] le = nothing (suc end - suc start)
  where
    nothing : {A : Type 0} (n : ℕ) → ◌≡◌ {A = List A} (take n []) []
    nothing zero = refl
    nothing (suc n) = refl
take-slice (suc start) (suc end) (x ∷ xs) le =
    let same : suc end - suc start ≡ end - start = omega arith in
    ap (λ ys. x ∷ ys)
      (ap (λ n. take start xs ++ take n (drop start xs)) same
        ∙ take-slice start end xs (omega (arith, le)))

pub take-length : {A : Type 0} (n : ℕ) (xs : List A) → length xs ≡ n → take n xs ≡ xs
take-length zero [] e = refl
take-length zero (x ∷ xs) e = absurd (omega (arith, e))
take-length (suc n) [] e = refl
take-length (suc n) (x ∷ xs) e = ap (λ ys. x ∷ ys) (take-length n xs (omega (arith, e)))

module _ (o : Otlp) where
  metrics_rows-append :
      (tag : Metric o → Row o) (ms ms' : List (Metric o))
      → metrics_rows o tag (ms ++ ms') ≡ metrics_rows o tag ms ++ metrics_rows o tag ms'
  unfolding metrics_rows
  metrics_rows-append tag [] ms' = refl
  metrics_rows-append tag (m ∷ ms) ms' =
      ap (λ r. map tag (points_of o m) ++ r) (metrics_rows-append tag ms ms')
      ∙ sym (append_assoc (map tag (points_of o m)) _ _)

  scopes_rows-append :
      (rm : ResourceMetrics o) (sms sms' : List (ScopeMetrics o))
      → scopes_rows o rm (sms ++ sms') ≡ scopes_rows o rm sms ++ scopes_rows o rm sms'
  unfolding scopes_rows
  scopes_rows-append rm [] sms' = refl
  scopes_rows-append rm (sm ∷ sms) sms' =
      ap (λ r. metrics_rows o (tagged o rm sm) sm.metrics ++ r) (scopes_rows-append rm sms sms')
      ∙ sym (append_assoc (metrics_rows o (tagged o rm sm) sm.metrics) _ _)

  rows-append : (r r' : Request o) → rows o (r ++ r') ≡ rows o r ++ rows o r'
  unfolding rows
  rows-append [] r' = refl
  rows-append (rm ∷ rms) r' =
      ap (λ x. scopes_rows o rm rm.scope_metrics ++ x) (rows-append rms r')
      ∙ sym (append_assoc (scopes_rows o rm rm.scope_metrics) _ _)

  -- An open resource, and an open scope in it.
  abbrev pub in_resource : Request o → ResourceMetrics o → List (ScopeMetrics o) → Request o
  in_resource before rm sms = before ++ resource_shell o rm sms ∷ []

  abbrev pub in_scope :
      Request o
      → ResourceMetrics o
      → List (ScopeMetrics o)
      → ScopeMetrics o
      → List (Metric o)
      → Request o
  in_scope before rm sms sm ms = in_resource before rm (sms ++ scope_shell o sm ms ∷ [])

  scopes_rows-resource_shell :
      (rm : ResourceMetrics o) (inside sms : List (ScopeMetrics o))
      → scopes_rows o (resource_shell o rm inside) sms ≡ scopes_rows o rm sms
  unfolding scopes_rows
  scopes_rows-resource_shell rm inside [] = refl
  scopes_rows-resource_shell rm inside (sm ∷ sms) =
      ap (λ x. metrics_rows o (tagged o rm sm) sm.metrics ++ x)
        (scopes_rows-resource_shell rm inside sms)

  rows-in_resource :
      (before : Request o) (rm : ResourceMetrics o) (sms : List (ScopeMetrics o))
      → rows o (in_resource before rm sms) ≡ rows o before ++ scopes_rows o rm sms
  unfolding rows
  rows-in_resource before rm sms =
      rows-append before _
      ∙ ap (λ x. rows o before ++ x) (append-nil _ ∙ scopes_rows-resource_shell rm sms sms)

  pub rows-new_resource :
      (before : Request o) (rm : ResourceMetrics o)
      → rows o (in_resource before rm []) ≡ rows o before
  unfolding scopes_rows
  rows-new_resource before rm = rows-in_resource before rm [] ∙ append-nil (rows o before)

  rows-in_scope :
      (before : Request o) (rm : ResourceMetrics o) (sms : List (ScopeMetrics o))
      (sm : ScopeMetrics o) (ms : List (Metric o))
      → rows o (in_scope before rm sms sm ms)
        ≡ rows o (in_resource before rm sms) ++ metrics_rows o (tagged o rm sm) ms
  unfolding scopes_rows
  rows-in_scope before rm sms sm ms =
      rows-in_resource before rm _
      ∙ ap (λ x. rows o before ++ x)
          (scopes_rows-append rm sms (scope_shell o sm ms ∷ [])
            ∙ ap (λ x. scopes_rows o rm sms ++ x) (append-nil _))
      ∙ sym (append_assoc (rows o before) (scopes_rows o rm sms) _)
      ∙ ap (λ x. x ++ metrics_rows o (tagged o rm sm) ms) (sym (rows-in_resource before rm sms))

  pub rows-new_scope :
      (before : Request o) (rm : ResourceMetrics o) (sms : List (ScopeMetrics o))
      (sm : ScopeMetrics o)
      → rows o (in_scope before rm sms sm []) ≡ rows o (in_resource before rm sms)
  unfolding metrics_rows
  rows-new_scope before rm sms sm = rows-in_scope before rm sms sm [] ∙ append-nil _

  -- A metric more in the open scope.
  pub rows-pushed :
      (before : Request o) (rm : ResourceMetrics o) (sms : List (ScopeMetrics o))
      (sm : ScopeMetrics o) (ms : List (Metric o)) (m : Metric o)
      → rows o (in_scope before rm sms sm (ms ++ m ∷ []))
        ≡ rows o (in_scope before rm sms sm ms) ++ map (tagged o rm sm) (points_of o m)
  unfolding metrics_rows
  rows-pushed before rm sms sm ms m =
      rows-in_scope before rm sms sm _
      ∙ ap (λ x. rows o (in_resource before rm sms) ++ x)
          (metrics_rows-append (tagged o rm sm) ms (m ∷ [])
            ∙ ap (λ x. metrics_rows o (tagged o rm sm) ms ++ x) (append-nil _))
      ∙ sym
          (append_assoc (rows o (in_resource before rm sms)) (metrics_rows o (tagged o rm sm) ms) _)
      ∙ ap (λ x. x ++ map (tagged o rm sm) (points_of o m))
          (sym (rows-in_scope before rm sms sm ms))

  -- What the loop does at the ends of the lists.
  pub in_last-new_scope :
      (current before : Request o) (rm : ResourceMetrics o) (sms : List (ScopeMetrics o))
      (sm : ScopeMetrics o)
      → current ≡ in_resource before rm sms
      → in_last
          (λ (r : ResourceMetrics o).
            resource_shell o r (r.scope_metrics ++ scope_shell o sm [] ∷ []))
          current
        ≡ in_scope before rm sms sm []
  in_last-new_scope current before rm sms sm e =
      rw e (in_last-append _ before (resource_shell o rm sms))

  pub in_last-pushed :
      (current before : Request o) (rm : ResourceMetrics o) (sms : List (ScopeMetrics o))
      (sm : ScopeMetrics o) (ms : List (Metric o)) (m : Metric o)
      → current ≡ in_scope before rm sms sm ms
      → in_last
          (λ (r : ResourceMetrics o). resource_shell o r (in_last (add_metric o m) r.scope_metrics))
          current
        ≡ in_scope before rm sms sm (ms ++ m ∷ [])
  in_last-pushed current before rm sms sm ms m e = rw e (
      in_last-append _ before (resource_shell o rm (sms ++ scope_shell o sm ms ∷ []))
      ∙ ap (λ x. in_resource before rm x)
          (in_last-append (add_metric o m) sms (scope_shell o sm ms)))
