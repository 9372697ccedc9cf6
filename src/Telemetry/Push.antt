-- ===== src/Telemetry/Push.antt =====
-- The push of an export (zk-verifier/src/otel_push.rs): what the metadata server is asked for, the
-- attributes of the resource, and the sending of the pieces. The HTTP client is a parameter that
-- acts on a world; log lines are left out.
use zee_k_verifier.Prelude.{
  ℕ, List, [], ◌∷◌, ◌++◌, Option, none, some, Result, ok, err, ◌>>=◌, Bytes, Text, codes, unwrap_or,
  ◌==◌, if◌then◌else◌,
}
use zee_k_verifier.Extern.Otlp.{Otlp, Prost}
use zee_k_verifier.Api.StoreCts.{is_success}
use zee_k_verifier.Telemetry.Split.{split_request, max_points_per_request}

-- A page of the metadata server, as text and as the JSON of a token.
pub record Page : Type 0 where
  pub text : Result Text Text
  pub access_token : Result Text Text

pub record Reply (H : Type 0) : Type 0 where
  pub status : ℕ
  pub headers : H
  pub bytes : Result Text Bytes

-- `reqwest` and `http`: a GET of the metadata server that fails on an error status, the header of
-- the bearer, and a POST.
pub record Http (W : Type 0) : Type 1 where
  pub Headers : Type 0
  pub Parts : Type 0
  pub get : Text → W → Result Text Page × W
  pub authorize : Text → Parts → Result Text Parts
  pub execute : Parts → Bytes → W → Result Text (Reply Headers) × W

pub record HttpResponse (H : Type 0) : Type 0 where
  pub response_status : ℕ
  pub response_headers : H
  pub response_body : Bytes

abbrev service_name : Text
unfolding codes
service_name = codes "zee-k-verifier"

-- `MetadataClient::new`, from the variable GCE_METADATA_HOST.
unfoldable pub metadata_base : Option Text → Text
unfolding codes
metadata_base var =
    codes "http://"
    ++ (unwrap_or (codes "metadata.google.internal") var ++ codes "/computeMetadata/v1")

-- `raw.rsplit('/').next()`, with what has been read of the part.
unfoldable pub last_part : Text → Text → Text
last_part part [] = part
last_part part (c ∷ s) = last_part (if c == b'/' then [] else part ++ c ∷ []) s

module _ {W : Type 0} (http : Http W) where
  -- A page, and what is read off it.
  abbrev read_page : (Page → Result Text Text) → Result Text Page × W → Result Text Text × W
  read_page f (page, w) = (page >>= f, w)

  unfoldable pub access_token : Text → W → Result Text Text × W
  unfolding codes
  access_token base w =
      read_page (λ page. page.access_token)
        (http.get (base ++ codes "/instance/service-accounts/default/token") w)

  unfoldable pub zone : Text → W → Result Text Text × W
  unfolding codes last_part
  zone base w =
      read_page (λ page. page.text >>= λ raw. ok (last_part [] raw))
        (http.get (base ++ codes "/instance/zone") w)

  unfoldable pub instance_name : Text → W → Result Text Text × W
  unfolding codes
  instance_name base w = read_page (λ page. page.text) (http.get (base ++ codes "/instance/name") w)

  unfoldable pub project_id : Text → W → Result Text Text × W
  unfolding codes
  project_id base w =
      read_page (λ page. page.text) (http.get (base ++ codes "/project/project-id") w)

  -- The attributes that are added to the resource, the name of the service among them.
  unfoldable pub attributes : (zone instance project : Text) → Option Text → List (Text × Text)
  unfolding codes
  attributes zone instance project env =
      (codes "service.name", service_name)
      ∷ (codes "service.instance.id", instance)
      ∷ (codes "cloud.availability_zone", zone)
      ∷ (codes "gcp.project_id", project)
      ∷ elim env [ none ↦ [] | some name ↦ (codes "service.namespace", name) ∷ [] ]

  -- The loop over the pieces: the first that is refused is the last that is sent.
  unfoldable pub send_pieces :
      http.Parts
      → List Bytes
      → Option (Reply http.Headers)
      → W
      → Result Text (Option (Reply http.Headers)) × W
  send_pieces parts [] response w = (ok response, w)
  send_pieces parts (piece ∷ pieces) response w =
      let (tried, w') = http.execute parts piece w in
      elim tried [
        | err e ↦ (err e, w')
        | ok resp ↦
            let rest = send_pieces parts pieces (some resp) w' in
            if is_success resp.status then rest else (ok (some resp), w')
      ]

  -- The response is that of the last request; a panic is an error that carries its message.
  unfoldable pub answer : Option (Reply http.Headers) → Result Text (HttpResponse http.Headers)
  unfolding codes
  answer none = err (codes "split_request never returns zero pieces")
  answer (some resp) = do
    bytes ← resp.bytes
    ok (record {
      response_status = resp.status;
      response_headers = resp.headers;
      response_body = bytes;
    })

  module _ (o : Otlp) (p : Prost o) where
    -- From the authorised parts and the pieces on.
    unfoldable pub send_all :
        Result Text (http.Parts × List Bytes) → W → Result Text (HttpResponse http.Headers) × W
    unfolding send_pieces answer
    send_all (err e) w = (err e, w)
    send_all (ok (parts, pieces)) w =
        let (result, w') = send_pieces parts pieces none w in (result >>= answer, w')

    -- `GoogleAuthClient::send_bytes`
    unfoldable pub send_bytes :
        Text → http.Parts → Bytes → W → Result Text (HttpResponse http.Headers) × W
    unfolding access_token split_request send_all
    send_bytes base parts body w =
        let (given, w1) = access_token base w in
        send_all
          (do
            token ← given
            authorized ← http.authorize token parts
            pieces ← split_request o p body max_points_per_request
            ok (authorized, pieces))
          w1
