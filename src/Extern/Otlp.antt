-- ===== src/Extern/Otlp.antt =====
-- The crate `opentelemetry-proto`: the messages that the code takes apart, with the fields that it
-- only carries along as types, and their bytes.
use zee_k_verifier.Prelude.{List, Option, Result, ok, Bytes, Text, ◌≡◌}

pub record Otlp : Type 1 where
  pub NumberDataPoint : Type 0
  pub HistogramDataPoint : Type 0
  pub ExponentialHistogramDataPoint : Type 0
  pub SummaryDataPoint : Type 0
  -- What a sum, a histogram, an exponential histogram and a metric have beside their points.
  pub SumFields : Type 0
  pub HistogramFields : Type 0
  pub ExponentialHistogramFields : Type 0
  pub MetricFields : Type 0
  pub Resource : Type 0
  pub Scope : Type 0

module _ (o : Otlp) where
  -- `metric::Data`
  pub data Data : Type 0 where
    gauge : List o.NumberDataPoint → Data
    sum : o.SumFields → List o.NumberDataPoint → Data
    histogram : o.HistogramFields → List o.HistogramDataPoint → Data
    exponential_histogram :
        o.ExponentialHistogramFields → List o.ExponentialHistogramDataPoint → Data
    summary : List o.SummaryDataPoint → Data

  pub record Metric : Type 0 where
    pub fields : o.MetricFields
    pub content : Option Data

  pub record ScopeMetrics : Type 0 where
    pub scope : Option o.Scope
    pub metrics : List Metric
    pub scope_schema_url : Text

  pub record ResourceMetrics : Type 0 where
    pub resource : Option o.Resource
    pub scope_metrics : List ScopeMetrics
    pub schema_url : Text

  -- `ExportMetricsServiceRequest`, and its `decode` and `encode_to_vec`.
  abbrev pub Request : Type 0
  Request = List ResourceMetrics

  pub record Prost : Type 0 where
    pub decode : Bytes → Result Text Request
    pub encode_to_vec : Request → Bytes

  pub record IsProst (p : Prost) : Type 0 where
    pub decode-encode_to_vec : (r : Request) → p.decode (p.encode_to_vec r) ≡ ok r
