-- ===== src/Telemetry/Tests.antt =====
-- An export of two resources, split.
use zee_k_verifier.Prelude.{
  ◌++◌, ◌-◌, ◌==◌, if◌then◌else◌, ℕ, List, [], ◌∷◌, none, some, ok, Bytes, Text, codes, map, ◌≡◌,
  refl, arith,
}
use zee_k_verifier.Extern.Otlp.{gauge, Metric, ScopeMetrics, ResourceMetrics, Request}
use zee_k_verifier.Telemetry.Split.{
  initial, over_resources, closed, split_request, max_points_per_request,
}
use zee_k_verifier.Telemetry.Laws.{Splits, split_request-Splits}
use zee_k_verifier.Telemetry.Push.{Http, send_pieces, zone, send_bytes, access_token}
use zee_k_verifier.Telemetry.Sending.{Accepted, send_bytes-Accepted}
use zee_k_verifier.Telemetry.Sample.{gauges, prost, prost-IsProst, encode_request}

abbrev metric : ℕ → List ℕ → Metric gauges
metric name ps = record { fields = name; content = some (gauge ps) }

abbrev scope : List (Metric gauges) → ScopeMetrics gauges
scope ms = record { scope = none; metrics = ms; scope_schema_url = [] }

abbrev resource : Text → List (ScopeMetrics gauges) → ResourceMetrics gauges
resource url sms = record { resource = none; scope_metrics = sms; schema_url = url }

-- Five points of two metrics, and one of another resource.
abbrev export : Request gauges
unfolding codes
export =
    resource (codes "a") (scope (metric 1 (10 ∷ 11 ∷ 12 ∷ []) ∷ metric 2 (20 ∷ 21 ∷ []) ∷ []) ∷ [])
    ∷ resource (codes "b") (scope (metric 3 [] ∷ metric 1 (13 ∷ []) ∷ []) ∷ [])
    ∷ []

-- The chunks for a cap of two: a piece is not spread to fill a chunk, and each resource keeps its
-- own shell.
chunks :
    closed gauges prost (over_resources gauges prost 2 0 export (initial gauges))
    ≡ map encode_request (
        (resource (codes "a") (scope (metric 1 (10 ∷ 11 ∷ []) ∷ []) ∷ []) ∷ [])
        ∷ (resource (codes "a") (scope (metric 1 (12 ∷ []) ∷ []) ∷ []) ∷ [])
        ∷ (resource (codes "a") (scope (metric 2 (20 ∷ 21 ∷ []) ∷ []) ∷ []) ∷ [])
        ∷ (resource (codes "b") (scope (metric 1 (13 ∷ []) ∷ []) ∷ []) ∷ [])
        ∷ [])
unfolding closed over_resources export codes
chunks = refl

-- With the cap of the service, two that fit are in one.
together :
    closed gauges prost
      (over_resources gauges prost max_points_per_request 0 export (initial gauges))
    ≡ map encode_request (
        (resource
            (codes "a")
            (scope (metric 1 (10 ∷ 11 ∷ 12 ∷ []) ∷ metric 2 (20 ∷ 21 ∷ []) ∷ []) ∷ [])
          ∷ resource (codes "b") (scope (metric 1 (13 ∷ []) ∷ []) ∷ [])
          ∷ [])
        ∷ [])
unfolding closed over_resources export codes
together = refl

split_request-Splits_example :
    (pieces : List Bytes) × (split_request gauges prost (encode_request export) 2 ≡ ok pieces)
    × Splits gauges prost 2 export pieces
split_request-Splits_example =
    split_request-Splits gauges prost 2 prost-IsProst (omega arith) (encode_request export) export
      (prost-IsProst.decode-encode_to_vec export)

-- A server that gives out a token, and that accepts as many requests as the world says.
abbrev http : Http ℕ
http = record {
  Headers = Unit {0};
  Parts = Text;
  get = λ url w. (ok (record { text = ok url; access_token = ok [] }), w);
  authorize = λ token parts. ok (parts ++ token);
  execute = λ parts body w.
      (ok (record { status = if w == 0 then 400 else 200; headers = tt; bytes = ok body }), w - 1);
}

posts :
    (send_pieces http [] ((1 ∷ []) ∷ (2 ∷ []) ∷ (3 ∷ []) ∷ []) none 9
      ≡ (ok (some (record { status = 200; headers = tt; bytes = ok (3 ∷ []) })), 6))
    × (send_pieces http [] ((1 ∷ []) ∷ (2 ∷ []) ∷ (3 ∷ []) ∷ []) none 1
        ≡ (ok (some (record { status = 400; headers = tt; bytes = ok (2 ∷ []) })), 0))
unfolding send_pieces
posts = (refl, refl)

zones : zone http [] 0 ≡ (ok (codes "zone"), 0)
unfolding zone codes
zones = refl

abbrev small : Request gauges
small = resource [] (scope (metric 1 (10 ∷ []) ∷ []) ∷ []) ∷ []

-- A request within the cap goes out as it came.
pushed_small : send_bytes http gauges prost [] [] (encode_request small) 5 ≡ (
  ok (record {
    response_status = 200;
    response_headers = tt;
    response_body = encode_request small;
  }),
  4,
)
unfolding send_bytes split_request
pushed_small = rw (prost-IsProst.decode-encode_to_vec small) refl

send_bytes-Accepted_example :
    (token : Text) × (authorized : Text) × (pieces : List Bytes) × ((access_token http [] 5).0
      ≡ ok token)
    × (http.authorize token [] ≡ ok authorized)
    × Splits gauges prost 200 small pieces
    × Accepted http authorized pieces (access_token http [] 5).1 4
send_bytes-Accepted_example =
    send_bytes-Accepted http gauges prost prost-IsProst [] [] (encode_request small) small 5 4
      (record {
        response_status = 200;
        response_headers = tt;
        response_body = encode_request small;
      })
      (prost-IsProst.decode-encode_to_vec small) pushed_small refl
