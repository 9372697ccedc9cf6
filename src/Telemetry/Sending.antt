-- ===== src/Telemetry/Sending.antt =====
-- What has been accepted when a push reports success.
use zee_k_verifier.Prelude.{
  true, false, List, [], ◌∷◌, Option, none, some, Result, ok, err, Bytes, Text, ◌≡◌, refl, sym, ap,
  ◌∙◌, subst, inl, inr, Bool-cases, Result-cases, >>=-eq-ok, ok-injective, err-ne-ok, some-inj,
  arith,
}
use zee_k_verifier.Extern.Otlp.{Otlp, Request, Prost, IsProst}
use zee_k_verifier.Api.StoreCts.{is_success}
use zee_k_verifier.Telemetry.Split.{split_request, max_points_per_request}
use zee_k_verifier.Telemetry.Laws.{Splits, split_request-Splits}
use zee_k_verifier.Telemetry.Push.{
  Reply, Http, HttpResponse, access_token, send_pieces, answer, send_all, send_bytes,
}

module _ {W : Type 0} (http : Http W) where
  -- The pieces were posted one after the other, and each was answered with success.
  abbrev pub Accepted : http.Parts → List Bytes → W → W → Type 0
  Accepted parts [] w w' = w ≡ w'
  Accepted parts (piece ∷ pieces) w w' =
      (resp : Reply http.Headers) × (w1 : W) × (http.execute parts piece w ≡ (ok resp, w1))
      × (is_success resp.status ≡ true)
      × Accepted parts pieces w1 w'

  abbrev Posted : Type 0
  Posted = Result Text (Reply http.Headers) × W

  abbrev Sent : Type 0
  Sent = Result Text (Option (Reply http.Headers)) × W

  module _ (parts : http.Parts) (piece : Bytes) (pieces : List Bytes)
      (before : Option (Reply http.Headers)) (w w1 : W) where
    send_pieces_failed :
        (e : Text)
        → http.execute parts piece w ≡ (err e, w1)
        → send_pieces http parts (piece ∷ pieces) before w ≡ (err e, w1)
    unfolding send_pieces
    send_pieces_failed e posted =
        rw (posted, send_pieces) (ap (λ x. (err e, x)) (ap (λ (x : Posted). x.1) posted))

    module _ (reply : Reply http.Headers)
        (posted : http.execute parts piece w ≡ (ok reply, w1)) where
      send_pieces_on :
          is_success reply.status ≡ true
          → send_pieces http parts (piece ∷ pieces) before w
            ≡ send_pieces http parts pieces (some reply) w1
      unfolding send_pieces
      send_pieces_on good =
          rw (posted, good, send_pieces)
            (ap (send_pieces http parts pieces (some reply)) (ap (λ (x : Posted). x.1) posted))

      send_pieces_refused :
          is_success reply.status ≡ false
          → send_pieces http parts (piece ∷ pieces) before w ≡ (ok (some reply), w1)
      unfolding send_pieces
      send_pieces_refused bad =
          rw (posted, bad, send_pieces)
            (ap (λ x. (ok (some reply), x)) (ap (λ (x : Posted). x.1) posted))

  send_pieces-Accepted :
      (parts : http.Parts) (pieces : List Bytes) (before : Option (Reply http.Headers)) (w w' : W)
      (resp : Reply http.Headers)
      → send_pieces http parts pieces before w ≡ (ok (some resp), w')
      → is_success resp.status ≡ true
      → Accepted parts pieces w w'
  unfolding send_pieces
  send_pieces-Accepted parts [] before w w' resp done good = ap (λ (x : Sent). x.1) done
  send_pieces-Accepted parts (piece ∷ pieces) before w w' resp done good =
      let w1 = (http.execute parts piece w).1 in
      elim (Result-cases (http.execute parts piece w).0) [
        | inr (e, failed) ↦
            let ends =
              send_pieces_failed parts piece pieces before w w1 e (ap (λ x. (x, w1)) failed) in
            absurd (err-ne-ok (ap (λ (x : Sent). x.0) (sym ends ∙ done)))
        | inl (reply, answered) ↦
            let posted : http.execute parts piece w ≡ (ok reply, w1) = ap (λ x. (x, w1)) answered in
            elim (Bool-cases (is_success reply.status)) [
              | inl fine ↦
                  let on = send_pieces_on parts piece pieces before w w1 reply posted fine in
                  (
                    reply,
                    w1,
                    posted,
                    fine,
                    send_pieces-Accepted parts pieces (some reply) w1 w' resp (sym on ∙ done) good,
                  )
              | inr refused ↦
                  let ends =
                    send_pieces_refused parts piece pieces before w w1 reply posted refused in
                  let replies : reply ≡ resp =
                    some-inj (ok-injective (ap (λ (x : Sent). x.0) (sym ends ∙ done))) in
                  let clash : true ≡ false =
                    sym good ∙ ap (λ r. is_success r.status) (sym replies) ∙ refused in
                  absurd cc
            ]
      ]

  answer-status :
      (response : Option (Reply http.Headers)) (r : HttpResponse http.Headers)
      → answer http response ≡ ok r
      → (resp : Reply http.Headers) × (response ≡ some resp) × (resp.status ≡ r.response_status)
  unfolding answer
  answer-status none r e = absurd (err-ne-ok e)
  answer-status (some resp) r e =
      let (bytes, _, same) = >>=-eq-ok resp.bytes _ e in
      (resp, refl, ap (λ (x : HttpResponse http.Headers). x.response_status) (ok-injective same))

  module _ (o : Otlp) (p : Prost o) where
    send_all-Accepted :
        (ready : Result Text (http.Parts × List Bytes)) (w w' : W) (r : HttpResponse http.Headers)
        → send_all http o p ready w ≡ (ok r, w')
        → is_success r.response_status ≡ true
        → (parts : http.Parts) × (pieces : List Bytes) × (ready ≡ ok (parts, pieces))
          × Accepted parts pieces w w'
    unfolding send_all
    send_all-Accepted (err e) w w' r done good =
        absurd (err-ne-ok (ap (λ (x : Result Text (HttpResponse http.Headers) × W). x.0) done))
    send_all-Accepted (ok (parts, pieces)) w w' r done good =
        let result = (send_pieces http parts pieces none w).0 in
        let (response, sent, answers) =
          >>=-eq-ok result (answer http)
            (ap (λ (x : Result Text (HttpResponse http.Headers) × W). x.0) done) in
        let (resp, last, status) = answer-status response r answers in
        let ends : (send_pieces http parts pieces none w).1 ≡ w' =
          ap (λ (x : Result Text (HttpResponse http.Headers) × W). x.1) done in
        (
          parts,
          pieces,
          refl,
          send_pieces-Accepted parts pieces none w w' resp
              (ap (λ x. (x, (send_pieces http parts pieces none w).1)) (sent ∙ ap ok last)
                ∙ ap (λ x. (ok (some resp), x)) ends)
              (ap is_success status ∙ good),
        )

    -- By the law of the decoder: when an export that decodes is reported with a status of success,
    -- its points have all been accepted: under one fresh token, in requests of at most 200 points
    -- that carry them in their order, posted one after the other and each answered with success.
    pub send_bytes-Accepted :
        IsProst o p
        → (base : Text) (parts : http.Parts) (body : Bytes) (request : Request o) (w w' : W)
          (r : HttpResponse http.Headers)
        → p.decode body ≡ ok request
        → send_bytes http o p base parts body w ≡ (ok r, w')
        → is_success r.response_status ≡ true
        → (token : Text) × (authorized : http.Parts) × (pieces : List Bytes) × ((access_token http
              base w).0
            ≡ ok token)
          × (http.authorize token parts ≡ ok authorized)
          × Splits o p 200 request pieces
          × Accepted authorized pieces (access_token http base w).1 w'
    unfolding send_bytes
    send_bytes-Accepted laws base parts body request w w' r decoded done good =
        let (authorized, pieces, ready, accepted) =
          send_all-Accepted _ (access_token http base w).1 w' r done good in
        let (token, given, e1) = >>=-eq-ok (access_token http base w).0 _ ready in
        let (authorized', authorizes, e2) = >>=-eq-ok (http.authorize token parts) _ e1 in
        let (pieces', splits, e3) =
          >>=-eq-ok (split_request o p body max_points_per_request) _ e2 in
        let (pieces'', splits', parted) =
          split_request-Splits o p 200 laws (omega arith) body request decoded in
        let same : ◌≡◌ {A = http.Parts × List Bytes} (authorized', pieces') (authorized, pieces) =
          ok-injective e3 in
        (
          token,
          authorized,
          pieces,
          given,
          authorizes ∙ ap (λ (x : http.Parts × List Bytes). ok x.0) same,
          subst (Splits o p 200 request)
              (ok-injective (sym splits' ∙ splits) ∙ ap (λ (x : http.Parts × List Bytes). x.1) same)
              parted,
          accepted,
        )
