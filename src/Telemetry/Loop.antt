-- ===== src/Telemetry/Loop.antt =====
-- The loops over the points, the metrics, the scopes and the resources.
use mathlib.Core.List.{append_assoc, append-nil}
use zee_k_verifier.Prelude.{
  ℕ, zero, suc, ◌+◌, ◌-◌, ◌≤◌, ◌<◌, min, List, [], ◌∷◌, ◌++◌, length, take, drop, map, Option, none,
  some, ltb, ◌≡◌, ◌⊎◌, sym, ap, ◌∙◌, subst, inl, inr, Bool-cases, arith, length-take, length-drop,
}
use zee_k_verifier.Extern.Otlp.{Otlp, Metric, ScopeMetrics, ResourceMetrics, Request, Prost}
use zee_k_verifier.Telemetry.Split.{
  slice, metric_slice, content_count, Splitting, flushed, with_resource, with_scope, put, pieces,
  over_metrics, over_scopes, over_resources,
}
use zee_k_verifier.Telemetry.Rows.{
  Row, tagged, points_of, metrics_rows, scopes_rows, rows, length-points_of, points_of-metric_slice,
}
use zee_k_verifier.Telemetry.Shells.{take-slice, take-length}
use zee_k_verifier.Telemetry.Parts.{
  Lower, map-append, Keeps, IsAt, IsResourceOpen, IsScopeOpen, flushed-Keeps, with_resource-Keeps,
  with_scope-Keeps, pushed-Keeps,
}

Lower-suc : (i : Option ℕ) (n : ℕ) → Lower i n → Lower i (n + 1)
Lower-suc none n low = tt
Lower-suc (some i) n low = omega (arith, low)

Lower-some : (i : Option ℕ) (n : ℕ) → i ≡ some n → Lower i (n + 1)
Lower-some i n e = subst (λ x. Lower x (n + 1)) (sym e) (omega arith)

length-slice :
    {A : Type 0} (start end : ℕ) (xs : List A)
    → end ≤ length xs
    → length (slice start end xs) ≡ end - start
length-slice start end xs fits =
    omega (arith, fits, length-take (end - start) (drop start xs), length-drop start xs)

module _ (o : Otlp) (p : Prost o) (max : ℕ) (some_max : 0 < max) where
  module _ (ri : ℕ) (rm : ResourceMetrics o) where
    module _ (si : ℕ) (sm : ScopeMetrics o) where
      put-Keeps :
          (done : List (Row o)) (s : Splitting o) (m : Metric o) (start end : ℕ)
          → end ≤ content_count o m.content
          → end - start ≤ max
          → IsAt o p max ri rm si sm s
          → Keeps o p max done s
          → Keeps o p max
              (done ++ map (tagged o rm sm) (slice start end (points_of o m)))
              (put o p max ri rm si sm m start end s)
            × IsScopeOpen o p max ri rm si sm (put o p max ri rm si sm m start end s)
      unfolding put
      put-Keeps done s m start end inside fits stands k =
          let s1 = flushed o p max (end - start) s in
          let s2 = with_resource o p ri rm s1 in
          let s3 = with_scope o p si sm s2 in
          let (k1, stands1, fits1) =
            flushed-Keeps o p max ri rm si sm done s (end - start) fits stands k in
          let (k2, stands2, same2) = with_resource-Keeps o p max ri rm si sm done s1 stands1 k1 in
          let (k3, stands3, same3) = with_scope-Keeps o p max ri rm si sm done s2 stands2 k2 in
          let sliced = points_of-metric_slice o m start end in
          let counts : length (points_of o (metric_slice o m start end)) ≡ end - start =
            ap length sliced
            ∙ length-slice start end (points_of o m)
                (omega (arith, inside, length-points_of o m)) in
          let (k4, stands4) =
            pushed-Keeps o p max ri rm si sm done s3 (metric_slice o m start end) (end - start)
              counts (omega (arith, fits1, same2, same3)) stands3 k3 in
          (
            subst
                (λ x.
                  Keeps o p max (done ++ map (tagged o rm sm) x)
                    (put o p max ri rm si sm m start end s))
                sliced k4,
            stands4,
          )

      pieces-Keeps :
          (done : List (Row o)) (m : Metric o) (fuel start : ℕ) (s : Splitting o)
          → start ≤ content_count o m.content
          → content_count o m.content ≤ start + fuel
          → IsAt o p max ri rm si sm s
          → Keeps o p max (done ++ map (tagged o rm sm) (take start (points_of o m))) s
          → Keeps o p max
              (done ++ map (tagged o rm sm) (points_of o m))
              (pieces o p max ri rm si sm m fuel start s)
            × IsAt o p max ri rm si sm (pieces o p max ri rm si sm m fuel start s)
      unfolding pieces
      pieces-Keeps done m zero start s inside enough stands k = (
        subst (λ x. Keeps o p max (done ++ map (tagged o rm sm) x) s)
            (take-length start (points_of o m)
              (omega (arith, inside, enough, length-points_of o m)))
            k,
        stands,
      )
      pieces-Keeps done m (suc fuel) start s inside enough stands k =
          elim (Bool-cases (ltb start (content_count o m.content))) [
            | inr over ↦ rw over (
              subst (λ x. Keeps o p max (done ++ map (tagged o rm sm) x) s)
                  (take-length start (points_of o m)
                    (let there = length-points_of o m in ground arith))
                  k,
              stands,
            )
            | inl more ↦
                let end = min (start + max) (content_count o m.content) in
                let before : start < content_count o m.content = ground arith in
                let (k1, stands1) =
                  put-Keeps (done ++ map (tagged o rm sm) (take start (points_of o m))) s m start
                    end (omega arith) (omega arith) stands k in
                let grown : (done ++ map (tagged o rm sm) (take start (points_of o m)))
                      ++ map (tagged o rm sm) (slice start end (points_of o m))
                    ≡ done ++ map (tagged o rm sm) (take end (points_of o m)) =
                  append_assoc done _ _
                  ∙ ap (λ x. done ++ x)
                      (sym (map-append (tagged o rm sm) (take start (points_of o m)) _)
                        ∙ ap (map (tagged o rm sm))
                            (take-slice start end (points_of o m) (omega (arith, before)))) in
                rw more (
                  pieces-Keeps done m fuel end (put o p max ri rm si sm m start end s) (omega arith)
                    (omega (arith, before, enough, some_max)) (inr (inr stands1))
                    (subst (λ x. Keeps o p max x (put o p max ri rm si sm m start end s)) grown k1))
          ]

      over_metrics-Keeps :
          (done : List (Row o)) (ms : List (Metric o)) (s : Splitting o)
          → IsAt o p max ri rm si sm s
          → Keeps o p max done s
          → Keeps o p max
              (done ++ metrics_rows o (tagged o rm sm) ms)
              (over_metrics o p max ri rm si sm ms s)
            × IsAt o p max ri rm si sm (over_metrics o p max ri rm si sm ms s)
      unfolding over_metrics metrics_rows
      over_metrics-Keeps done [] s stands k =
          (subst (λ x. Keeps o p max x s) (sym (append-nil done)) k, stands)
      over_metrics-Keeps done (m ∷ ms) s stands k =
          let n = content_count o m.content in
          let s1 = pieces o p max ri rm si sm m n 0 s in
          let (k1, stands1) =
            pieces-Keeps done m n 0 s (omega arith) (omega arith) stands
              (subst (λ x. Keeps o p max x s) (sym (append-nil done)) k) in
          let (k2, stands2) =
            over_metrics-Keeps (done ++ map (tagged o rm sm) (points_of o m)) ms s1 stands1 k1 in
          (
            subst (λ x. Keeps o p max x (over_metrics o p max ri rm si sm ms s1))
                (append_assoc done _ _) k2,
            stands2,
          )

    -- Before a scope, and so after the one before it.
    abbrev IsBefore : ℕ → Splitting o → Type 0
    IsBefore si s = Lower s.cur_ri ri ⊎ IsResourceOpen o p max ri rm si s

    before-IsAt :
        (si : ℕ) (sm : ScopeMetrics o) (s : Splitting o)
        → IsBefore si s
        → IsAt o p max ri rm si sm s
    before-IsAt si sm s (inl low) = inl low
    before-IsAt si sm s (inr opened) = inr (inl opened)

    after-IsBefore :
        (si : ℕ) (sm : ScopeMetrics o) (s : Splitting o)
        → IsAt o p max ri rm si sm s
        → IsBefore (si + 1) s
    after-IsBefore si sm s (inl low) = inl low
    after-IsBefore si sm s (inr (inl (before, sms, at, low, current))) =
        inr (before, sms, at, Lower-suc s.cur_si si low, current)
    after-IsBefore si sm s (inr (inr (before, sms, ms, at, at', current))) =
        inr (before, _, at, Lower-some s.cur_si si at', current)

    over_scopes-Keeps :
        (done : List (Row o)) (si : ℕ) (sms : List (ScopeMetrics o)) (s : Splitting o)
        → IsBefore si s
        → Keeps o p max done s
        → Keeps o p max (done ++ scopes_rows o rm sms) (over_scopes o p max ri rm si sms s)
          × Lower (over_scopes o p max ri rm si sms s).cur_ri (ri + 1)
    unfolding over_scopes scopes_rows
    over_scopes-Keeps done si [] s (inl low) k =
        (subst (λ x. Keeps o p max x s) (sym (append-nil done)) k, Lower-suc s.cur_ri ri low)
    over_scopes-Keeps done si [] s (inr (before, sms, at, low, current)) k =
        (subst (λ x. Keeps o p max x s) (sym (append-nil done)) k, Lower-some s.cur_ri ri at)
    over_scopes-Keeps done si (sm ∷ sms) s stands k =
        let s1 = over_metrics o p max ri rm si sm sm.metrics s in
        let (k1, stands1) =
          over_metrics-Keeps si sm done sm.metrics s (before-IsAt si sm s stands) k in
        let (k2, low) =
          over_scopes-Keeps (done ++ metrics_rows o (tagged o rm sm) sm.metrics) (si + 1) sms s1
            (after-IsBefore si sm s1 stands1) k1 in
        (
          subst (λ x. Keeps o p max x (over_scopes o p max ri rm (si + 1) sms s1))
              (append_assoc done _ _) k2,
          low,
        )

  pub over_resources-Keeps :
      (done : List (Row o)) (ri : ℕ) (rms : Request o) (s : Splitting o)
      → Lower s.cur_ri ri
      → Keeps o p max done s
      → Keeps o p max (done ++ rows o rms) (over_resources o p max ri rms s)
  unfolding over_resources rows
  over_resources-Keeps done ri [] s low k = subst (λ x. Keeps o p max x s) (sym (append-nil done)) k
  over_resources-Keeps done ri (rm ∷ rms) s low k =
      let s1 = over_scopes o p max ri rm 0 rm.scope_metrics s in
      let (k1, low1) = over_scopes-Keeps ri rm done 0 rm.scope_metrics s (inl low) k in
      subst (λ x. Keeps o p max x (over_resources o p max (ri + 1) rms s1)) (append_assoc done _ _)
        (over_resources-Keeps (done ++ scopes_rows o rm rm.scope_metrics) (ri + 1) rms s1 low1 k1)
