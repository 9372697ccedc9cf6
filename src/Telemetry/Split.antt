-- ===== src/Telemetry/Split.antt =====
-- Splitting an export into requests of a bounded size (zk-verifier/src/otel_split.rs). A slice and
-- the last of a list are only taken where the code has ensured them.
use zee_k_verifier.Prelude.{
  ℕ, zero, suc, ◌+◌, ◌-◌, min, Bool, false, ◌&&◌, List, [], ◌∷◌, ◌++◌, length, take, drop, Option,
  none, some, Result, ok, ◌>>=◌, Bytes, Text, ltb, leb, ◌==◌, if◌then◌else◌,
}
use zee_k_verifier.Extern.Otlp.{
  Otlp, Data, gauge, sum, histogram, exponential_histogram, summary, Metric, ScopeMetrics,
  ResourceMetrics, Request, Prost,
}

abbrev pub max_points_per_request : ℕ
max_points_per_request = 200

-- `xs[start..end]`
abbrev pub slice : {A : Type 0} → ℕ → ℕ → List A → List A
slice start end xs = take (end - start) (drop start xs)

-- `xs.last_mut()`, changed by `f`.
unfoldable pub in_last : {A : Type 0} → (A → A) → List A → List A
in_last f [] = []
in_last f (x ∷ []) = f x ∷ []
in_last f (x ∷ y ∷ xs) = x ∷ in_last f (y ∷ xs)

-- Whether an open shell mirrors an index; `none` stands for `usize::MAX`, which is no index.
unfoldable pub mirrors : Option ℕ → ℕ → Bool
mirrors none i = false
mirrors (some j) i = j == i

module _ (o : Otlp) where
  unfoldable pub content_count : Option (Data o) → ℕ
  content_count none = 0
  content_count (some (gauge ps)) = length ps
  content_count (some (sum f ps)) = length ps
  content_count (some (histogram f ps)) = length ps
  content_count (some (exponential_histogram f ps)) = length ps
  content_count (some (summary ps)) = length ps

  abbrev pub point_count : Metric o → ℕ
  unfolding content_count
  point_count m = content_count m.content

  unfoldable pub content_slice : Option (Data o) → ℕ → ℕ → Option (Data o)
  content_slice none start end = none
  content_slice (some (gauge ps)) start end = some (gauge (slice start end ps))
  content_slice (some (sum f ps)) start end = some (sum f (slice start end ps))
  content_slice (some (histogram f ps)) start end = some (histogram f (slice start end ps))
  content_slice (some (exponential_histogram f ps)) start end =
      some (exponential_histogram f (slice start end ps))
  content_slice (some (summary ps)) start end = some (summary (slice start end ps))

  unfoldable pub metric_slice : Metric o → ℕ → ℕ → Metric o
  unfolding content_slice
  metric_slice m start end = record {
    fields = m.fields;
    content = content_slice m.content start end;
  }

  unfoldable pub metrics_count : List (Metric o) → ℕ
  unfolding content_count
  metrics_count [] = 0
  metrics_count (m ∷ ms) = point_count m + metrics_count ms

  unfoldable pub scopes_count : List (ScopeMetrics o) → ℕ
  unfolding metrics_count
  scopes_count [] = 0
  scopes_count (sm ∷ sms) = metrics_count sm.metrics + scopes_count sms

  -- The points of a request.
  unfoldable pub total : Request o → ℕ
  unfolding scopes_count
  total [] = 0
  total (rm ∷ rms) = scopes_count rm.scope_metrics + total rms

  -- The variables of the loop.
  pub record Splitting : Type 0 where
    pub chunks : List Bytes
    pub current : Request o
    pub current_points : ℕ
    pub cur_ri : Option ℕ
    pub cur_si : Option ℕ

  abbrev pub initial : Splitting
  initial = record { chunks = []; current = []; current_points = 0; cur_ri = none; cur_si = none }

  -- The shells that a chunk repeats, on what it carries of them.
  abbrev pub resource_shell : ResourceMetrics o → List (ScopeMetrics o) → ResourceMetrics o
  resource_shell rm sms = record {
    resource = rm.resource;
    scope_metrics = sms;
    schema_url = rm.schema_url;
  }

  abbrev pub scope_shell : ScopeMetrics o → List (Metric o) → ScopeMetrics o
  scope_shell sm ms = record {
    scope = sm.scope;
    metrics = ms;
    scope_schema_url = sm.scope_schema_url;
  }

  abbrev pub add_metric : Metric o → ScopeMetrics o → ScopeMetrics o
  add_metric m sm = scope_shell sm (sm.metrics ++ m ∷ [])

  module _ (p : Prost o) where
    -- A chunk that the next piece would overfill is closed.
    unfoldable pub flushed : ℕ → ℕ → Splitting → Splitting
    flushed max points s =
        if ltb max (s.current_points + points) && ltb 0 s.current_points
        then record {
          chunks = s.chunks ++ p.encode_to_vec s.current ∷ [];
          current = [];
          current_points = 0;
          cur_ri = none;
          cur_si = none;
        }
        else s

    unfoldable pub with_resource : ℕ → ResourceMetrics o → Splitting → Splitting
    unfolding mirrors
    with_resource ri rm s = if mirrors s.cur_ri ri then s else record s {
      current = s.current ++ resource_shell rm [] ∷ [];
      cur_ri = some ri;
      cur_si = none;
    }

    unfoldable pub with_scope : ℕ → ScopeMetrics o → Splitting → Splitting
    unfolding mirrors in_last
    with_scope si sm s = if mirrors s.cur_si si then s else record s {
      current =
          in_last (λ rm. resource_shell rm (rm.scope_metrics ++ scope_shell sm [] ∷ [])) s.current;
      cur_si = some si;
    }

    unfoldable pub pushed : Metric o → ℕ → Splitting → Splitting
    unfolding in_last
    pushed m points s = record s {
      current =
          in_last (λ rm. resource_shell rm (in_last (add_metric m) rm.scope_metrics)) s.current;
      current_points = s.current_points + points;
    }

    module _ (max ri : ℕ) (rm : ResourceMetrics o) (si : ℕ) (sm : ScopeMetrics o)
        (m : Metric o) where
      -- One round of the inner loop.
      unfoldable pub put : (start end : ℕ) → Splitting → Splitting
      unfolding flushed with_resource with_scope pushed metric_slice
      put start end s =
          pushed (metric_slice m start end) (end - start)
            (with_scope si sm (with_resource ri rm (flushed max (end - start) s)))

      -- The inner loop from a point on. A round takes a point at least where `max` is positive, so
      -- the number of points is enough; where it is 0, the loop of the code does not end.
      unfoldable pub pieces : (fuel start : ℕ) → Splitting → Splitting
      unfolding put content_count
      pieces zero start s = s
      pieces (suc fuel) start s =
          let end = min (start + max) (point_count m) in
          let rest = pieces fuel end (put start end s) in
          if ltb start (point_count m) then rest else s

    unfoldable pub over_metrics :
        (max ri : ℕ)
        → ResourceMetrics o
        → ℕ
        → ScopeMetrics o
        → List (Metric o)
        → Splitting
        → Splitting
    unfolding pieces content_count
    over_metrics max ri rm si sm [] s = s
    over_metrics max ri rm si sm (m ∷ ms) s =
        over_metrics max ri rm si sm ms (pieces max ri rm si sm m (point_count m) 0 s)

    unfoldable pub over_scopes :
        (max ri : ℕ) → ResourceMetrics o → ℕ → List (ScopeMetrics o) → Splitting → Splitting
    unfolding over_metrics
    over_scopes max ri rm si [] s = s
    over_scopes max ri rm si (sm ∷ sms) s =
        over_scopes max ri rm (si + 1) sms (over_metrics max ri rm si sm sm.metrics s)

    unfoldable pub over_resources : (max ri : ℕ) → Request o → Splitting → Splitting
    unfolding over_scopes
    over_resources max ri [] s = s
    over_resources max ri (rm ∷ rms) s =
        over_resources max (ri + 1) rms (over_scopes max ri rm 0 rm.scope_metrics s)

    unfoldable pub closed : Splitting → List Bytes
    closed s =
        if ltb 0 s.current_points then s.chunks ++ p.encode_to_vec s.current ∷ [] else s.chunks

    unfoldable pub split_request : Bytes → ℕ → Result Text (List Bytes)
    unfolding total over_resources closed
    split_request body max = do
      req ← p.decode body
      if leb (total req) max then ok (body ∷ []) else ok (closed (over_resources max 0 req initial))
