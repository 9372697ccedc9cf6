-- ===== src/Telemetry/Sample.antt =====
-- Exports whose metrics are gauges of numbers, and a format for them that puts its length before
-- each list.
use zee_k_verifier.Prelude.{
  ℕ, zero, suc, List, [], ◌∷◌, length, Option, none, some, Result, ok, err, ◌>>=◌, Bytes, Text,
  codes, ◌≡◌, refl, ap,
}
use zee_k_verifier.Extern.Otlp.{
  Otlp, Data, gauge, sum, histogram, exponential_histogram, summary, Metric, ScopeMetrics,
  ResourceMetrics, Request, Prost, IsProst,
}

abbrev pub gauges : Otlp
gauges = record {
  NumberDataPoint = ℕ;
  HistogramDataPoint = ⊥;
  ExponentialHistogramDataPoint = ⊥;
  SummaryDataPoint = ⊥;
  SumFields = ⊥;
  HistogramFields = ⊥;
  ExponentialHistogramFields = ⊥;
  MetricFields = ℕ;
  Resource = ⊥;
  Scope = ⊥;
}

-- How a value is put before what follows, and taken off it again.
record Format (A : Type 0) : Type 0 where
  put : A → Bytes → Bytes
  get : Bytes → Result Text (A × Bytes)
  get-put : (a : A) (rest : Bytes) → get (put a rest) ≡ ok (a, rest)

abbrev short : Text
unfolding codes
short = codes "unexpected end"

get_number : Bytes → Result Text (ℕ × Bytes)
get_number [] = err short
get_number (n ∷ bytes) = ok (n, bytes)

abbrev number : Format ℕ
unfolding get_number
number = record { put = λ n rest. n ∷ rest; get = get_number; get-put = λ n rest. refl }

put_all : {A : Type 0} → Format A → List A → Bytes → Bytes
put_all f [] rest = rest
put_all f (a ∷ xs) rest = f.put a (put_all f xs rest)

get_all : {A : Type 0} → Format A → ℕ → Bytes → Result Text (List A × Bytes)
get_all f zero bytes = ok ([], bytes)
get_all f (suc n) bytes = do
  first ← f.get bytes
  others ← get_all f n first.1
  ok (first.0 ∷ others.0, others.1)

get_all-put_all :
    {A : Type 0} (f : Format A) (xs : List A) (rest : Bytes)
    → get_all f (length xs) (put_all f xs rest) ≡ ok (xs, rest)
unfolding get_all put_all
get_all-put_all f [] rest = refl
get_all-put_all f (a ∷ xs) rest =
    rw (f.get-put a (put_all f xs rest), get_all-put_all f xs rest) refl

get_list : {A : Type 0} → Format A → Bytes → Result Text (List A × Bytes)
unfolding get_all
get_list f [] = err short
get_list f (n ∷ bytes) = get_all f n bytes

abbrev list : {A : Type 0} → Format A → Format (List A)
unfolding get_list put_all
list f = record {
  put = λ xs rest. length xs ∷ put_all f xs rest;
  get = get_list f;
  get-put = get_all-put_all f;
}

put_content : Option (Data gauges) → Bytes → Bytes
put_content none rest = 0 ∷ rest
put_content (some (gauge ps)) rest = 1 ∷ (list number).put ps rest
put_content (some (sum f ps)) rest = absurd f
put_content (some (histogram f ps)) rest = absurd f
put_content (some (exponential_histogram f ps)) rest = absurd f
put_content (some (summary [])) rest = 2 ∷ rest
put_content (some (summary (p ∷ ps))) rest = absurd p

get_content : Bytes → Result Text (Option (Data gauges) × Bytes)
unfolding get_list
get_content [] = err short
get_content (zero ∷ bytes) = ok (none, bytes)
get_content (suc zero ∷ bytes) = do ps ← get_list number bytes; ok (some (gauge ps.0), ps.1)
get_content (suc (suc n) ∷ bytes) = ok (some (summary []), bytes)

get_content-put_content :
    (c : Option (Data gauges)) (rest : Bytes) → get_content (put_content c rest) ≡ ok (c, rest)
unfolding get_content put_content list
get_content-put_content none rest = refl
get_content-put_content (some (gauge ps)) rest = rw (get_all-put_all number ps rest) refl
get_content-put_content (some (sum f ps)) rest = absurd f
get_content-put_content (some (histogram f ps)) rest = absurd f
get_content-put_content (some (exponential_histogram f ps)) rest = absurd f
get_content-put_content (some (summary [])) rest = refl
get_content-put_content (some (summary (p ∷ ps))) rest = absurd p

get_metric : Bytes → Result Text (Metric gauges × Bytes)
unfolding get_content
get_metric [] = err short
get_metric (n ∷ bytes) = do
  content ← get_content bytes
  ok (record { fields = n; content = content.0 }, content.1)

abbrev metric : Format (Metric gauges)
unfolding get_metric put_content
metric = record {
  put = λ m rest. m.fields ∷ put_content m.content rest;
  get = get_metric;
  get-put = λ m rest. rw (get_content-put_content m.content rest) refl;
}

get_scope : Bytes → Result Text (ScopeMetrics gauges × Bytes)
unfolding list metric
get_scope bytes = do
  metrics ← (list metric).get bytes
  url ← (list number).get metrics.1
  ok (record { scope = none; metrics = metrics.0; scope_schema_url = url.0 }, url.1)

put_scope : ScopeMetrics gauges → Bytes → Bytes
unfolding list metric
put_scope sm rest = (list metric).put sm.metrics ((list number).put sm.scope_schema_url rest)

no_scope : {A : Type 0} → (A → ⊥) → (s : Option A) → none ≡ s
no_scope f none = refl
no_scope f (some x) = absurd (f x)

abbrev scope : Format (ScopeMetrics gauges)
unfolding get_scope put_scope list metric
scope = record {
  put = put_scope;
  get = get_scope;
  get-put = λ sm rest.
      rw
        (
          (list metric).get-put sm.metrics ((list number).put sm.scope_schema_url rest),
          (list number).get-put sm.scope_schema_url rest,
        )
        (ap
          (λ s. ok (
            record { scope = s; metrics = sm.metrics; scope_schema_url = sm.scope_schema_url },
            rest,
          ))
          (no_scope (λ x. x) sm.scope));
}

get_resource : Bytes → Result Text (ResourceMetrics gauges × Bytes)
unfolding list scope
get_resource bytes = do
  scopes ← (list scope).get bytes
  url ← (list number).get scopes.1
  ok (record { resource = none; scope_metrics = scopes.0; schema_url = url.0 }, url.1)

put_resource : ResourceMetrics gauges → Bytes → Bytes
unfolding list scope
put_resource rm rest = (list scope).put rm.scope_metrics ((list number).put rm.schema_url rest)

abbrev resource : Format (ResourceMetrics gauges)
unfolding get_resource put_resource list scope
resource = record {
  put = put_resource;
  get = get_resource;
  get-put = λ rm rest.
      rw
        (
          (list scope).get-put rm.scope_metrics ((list number).put rm.schema_url rest),
          (list number).get-put rm.schema_url rest,
        )
        (ap
          (λ s. ok (
            record { resource = s; scope_metrics = rm.scope_metrics; schema_url = rm.schema_url },
            rest,
          ))
          (no_scope (λ x. x) rm.resource));
}

pub decode_request : Bytes → Result Text (Request gauges)
unfolding list resource
decode_request bytes = (list resource).get bytes >>= λ r. ok r.0

pub encode_request : Request gauges → Bytes
unfolding list resource
encode_request r = (list resource).put r []

abbrev pub prost : Prost gauges
prost = record { decode = decode_request; encode_to_vec = encode_request }

pub prost-IsProst : IsProst gauges prost
unfolding decode_request encode_request list resource
prost-IsProst = record { decode-encode_to_vec = λ r. rw ((list resource).get-put r []) refl }
