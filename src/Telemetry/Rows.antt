-- ===== src/Telemetry/Rows.antt =====
-- A request as its points in order, each with all that it is reported under.
use zee_k_verifier.Prelude.{
  ℕ, zero, suc, ◌-◌, List, [], ◌∷◌, ◌++◌, length, take, drop, map, Option, none, some, Text,
  length-map, length-append, ◌≡◌, refl, ap, ◌∙◌, arith,
}
use zee_k_verifier.Extern.Otlp.{
  Otlp, Data, gauge, sum, histogram, exponential_histogram, summary, Metric, ScopeMetrics,
  ResourceMetrics, Request,
}
use zee_k_verifier.Telemetry.Split.{
  slice, in_last, content_count, content_slice, metric_slice, metrics_count, scopes_count, total,
}

module _ {A B : Type 0} (f : A → B) where
  map-take : (n : ℕ) (xs : List A) → map f (take n xs) ≡ take n (map f xs)
  map-take zero xs = refl
  map-take (suc n) [] = refl
  map-take (suc n) (x ∷ xs) = ap (λ ys. f x ∷ ys) (map-take n xs)

  map-drop : (n : ℕ) (xs : List A) → map f (drop n xs) ≡ drop n (map f xs)
  map-drop zero xs = refl
  map-drop (suc n) [] = refl
  map-drop (suc n) (x ∷ xs) = map-drop n xs

  pub map-slice :
      (start end : ℕ) (xs : List A) → map f (slice start end xs) ≡ slice start end (map f xs)
  map-slice start end xs =
      map-take (end - start) (drop start xs) ∙ ap (take (end - start)) (map-drop start xs)

pub in_last-append :
    {A : Type 0} (f : A → A) (xs : List A) (x : A) → in_last f (xs ++ x ∷ []) ≡ xs ++ f x ∷ []
unfolding in_last
in_last-append f [] x = refl
in_last-append f (y ∷ []) x = refl
in_last-append f (y ∷ z ∷ xs) x = ap (λ ys. y ∷ ys) (in_last-append f (z ∷ xs) x)

module _ (o : Otlp) where
  pub record Row : Type 0 where
    pub resource : Option o.Resource
    pub schema_url : Text
    pub scope : Option o.Scope
    pub scope_schema_url : Text
    pub metric : Metric o

  -- A point alone, in the kind and the fields of its metric.
  content_points : Option (Data o) → List (Option (Data o))
  content_points none = []
  content_points (some (gauge ps)) = map (λ p. some (gauge (p ∷ []))) ps
  content_points (some (sum f ps)) = map (λ p. some (sum f (p ∷ []))) ps
  content_points (some (histogram f ps)) = map (λ p. some (histogram f (p ∷ []))) ps
  content_points (some (exponential_histogram f ps)) =
      map (λ p. some (exponential_histogram f (p ∷ []))) ps
  content_points (some (summary ps)) = map (λ p. some (summary (p ∷ []))) ps

  pub points_of : Metric o → List (Metric o)
  unfolding content_points
  points_of m = map (λ c. record { fields = m.fields; content = c }) (content_points m.content)

  abbrev pub tagged : ResourceMetrics o → ScopeMetrics o → Metric o → Row
  tagged rm sm m = record {
    resource = rm.resource;
    schema_url = rm.schema_url;
    scope = sm.scope;
    scope_schema_url = sm.scope_schema_url;
    metric = m;
  }

  unfoldable pub metrics_rows : (Metric o → Row) → List (Metric o) → List Row
  metrics_rows tag [] = []
  metrics_rows tag (m ∷ ms) = map tag (points_of m) ++ metrics_rows tag ms

  unfoldable pub scopes_rows : ResourceMetrics o → List (ScopeMetrics o) → List Row
  scopes_rows rm [] = []
  scopes_rows rm (sm ∷ sms) = metrics_rows (tagged rm sm) sm.metrics ++ scopes_rows rm sms

  unfoldable pub rows : Request o → List Row
  rows [] = []
  rows (rm ∷ rms) = scopes_rows rm rm.scope_metrics ++ rows rms

  length-content_points : (c : Option (Data o)) → length (content_points c) ≡ content_count o c
  unfolding content_points content_count
  length-content_points none = refl
  length-content_points (some (gauge ps)) = length-map _ ps
  length-content_points (some (sum f ps)) = length-map _ ps
  length-content_points (some (histogram f ps)) = length-map _ ps
  length-content_points (some (exponential_histogram f ps)) = length-map _ ps
  length-content_points (some (summary ps)) = length-map _ ps

  pub length-points_of : (m : Metric o) → length (points_of m) ≡ content_count o m.content
  unfolding points_of
  length-points_of m = length-map _ (content_points m.content) ∙ length-content_points m.content

  length-metrics_rows :
      (tag : Metric o → Row) (ms : List (Metric o))
      → length (metrics_rows tag ms) ≡ metrics_count o ms
  unfolding metrics_rows metrics_count
  length-metrics_rows tag [] = refl
  length-metrics_rows tag (m ∷ ms) = omega (
    arith,
    length-append (map tag (points_of m)) (metrics_rows tag ms),
    length-map tag (points_of m),
    length-points_of m,
    length-metrics_rows tag ms,
  )

  length-scopes_rows :
      (rm : ResourceMetrics o) (sms : List (ScopeMetrics o))
      → length (scopes_rows rm sms) ≡ scopes_count o sms
  unfolding scopes_rows scopes_count
  length-scopes_rows rm [] = refl
  length-scopes_rows rm (sm ∷ sms) = omega (
    arith,
    length-append (metrics_rows (tagged rm sm) sm.metrics) (scopes_rows rm sms),
    length-metrics_rows (tagged rm sm) sm.metrics,
    length-scopes_rows rm sms,
  )

  pub length-rows : (r : Request o) → length (rows r) ≡ total o r
  unfolding rows total
  length-rows [] = refl
  length-rows (rm ∷ rms) = omega (
    arith,
    length-append (scopes_rows rm rm.scope_metrics) (rows rms),
    length-scopes_rows rm rm.scope_metrics,
    length-rows rms,
  )

  content_points-content_slice :
      (start end : ℕ) (c : Option (Data o))
      → content_points (content_slice o c start end) ≡ slice start end (content_points c)
  unfolding content_points content_slice
  content_points-content_slice start end none = nothing (end - start) start
    where
      nothing : (n k : ℕ) → ◌≡◌ {A = List (Option (Data o))} [] (take n (drop k []))
      nothing zero k = refl
      nothing (suc n) zero = refl
      nothing (suc n) (suc k) = refl
  content_points-content_slice start end (some (gauge ps)) = map-slice _ start end ps
  content_points-content_slice start end (some (sum f ps)) = map-slice _ start end ps
  content_points-content_slice start end (some (histogram f ps)) = map-slice _ start end ps
  content_points-content_slice start end (some (exponential_histogram f ps)) =
      map-slice _ start end ps
  content_points-content_slice start end (some (summary ps)) = map-slice _ start end ps

  pub points_of-metric_slice :
      (m : Metric o) (start end : ℕ)
      → points_of (metric_slice o m start end) ≡ slice start end (points_of m)
  unfolding points_of metric_slice
  points_of-metric_slice m start end =
      ap (map _) (content_points-content_slice start end m.content)
      ∙ map-slice _ start end (content_points m.content)
