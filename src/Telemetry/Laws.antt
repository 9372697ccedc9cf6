-- ===== src/Telemetry/Laws.antt =====
-- What a split export is.
use mathlib.Core.List.{append-nil}
use zee_k_verifier.Prelude.{
  ℕ, ◌≤◌, ◌<◌, List, [], ◌∷◌, ◌++◌, length, map, ok, Bytes, All, ltb, leb, ◌≡◌, ◌≢◌, refl, sym, ap,
  ◌∙◌, inl, inr, Bool-cases, arith,
}
use zee_k_verifier.Extern.Otlp.{Otlp, Request, Prost, IsProst}
use zee_k_verifier.Telemetry.Split.{
  Splitting, initial, total, over_resources, closed, split_request,
}
use zee_k_verifier.Telemetry.Rows.{Row, rows, length-rows}
use zee_k_verifier.Telemetry.Parts.{all_rows, Keeps, IsPart, closed-Keeps}
use zee_k_verifier.Telemetry.Loop.{over_resources-Keeps}

none_there : {A : Type 0} (xs : List A) → length xs ≡ 0 → xs ≡ []
none_there [] e = refl
none_there (x ∷ xs) e = absurd (omega (arith, e))

module _ (o : Otlp) (p : Prost o) (max : ℕ) where
  -- The chunks of a request, decoded: small enough, and with the same points in the same order.
  pub record Splits (request : Request o) (chunks : List Bytes) : Type 0 where
    pub parts : List (Request o)
    pub chunks_decoded : map p.decode chunks ≡ map ok parts
    pub bounded : All (λ (r : Request o). total o r ≤ max) parts
    pub kept : all_rows o parts ≡ rows o request
    pub some_chunk : chunks ≢ []

  closed-parts :
      (done : List (Row o)) (s : Splitting o)
      → Keeps o p max done s
      → (parts : List (Request o)) × (closed o p s ≡ map p.encode_to_vec parts)
        × All (IsPart o p max) parts
        × (all_rows o parts ≡ done)
  unfolding closed rows
  closed-parts done s k = elim (Bool-cases (ltb 0 s.current_points)) [
    | inl nonempty ↦
        let k1 = closed-Keeps o p max done s (ground arith) k in
        rw nonempty (k1.requests, k1.chunks, k1.parts, sym (append-nil _) ∙ k1.kept)
    | inr empty ↦
        let nothing : rows o s.current ≡ [] =
          none_there (rows o s.current)
            (let there = length-rows o s.current in let counted = k.counted in ground arith) in
        rw empty (
          k.requests,
          k.chunks,
          k.parts,
          sym (append-nil _) ∙ ap (λ x. all_rows o k.requests ++ x) (sym nothing) ∙ k.kept,
        )
  ]

  initial-Keeps : Keeps o p max [] (initial o)
  unfolding all_rows rows total
  initial-Keeps = record {
    requests = [];
    chunks = refl;
    parts = tt;
    kept = refl;
    counted = refl;
    within = omega arith;
  }

  All-IsPart :
      (parts : List (Request o))
      → All (IsPart o p max) parts
      → All (λ (r : Request o). total o r ≤ max) parts
  All-IsPart [] all = tt
  All-IsPart (r ∷ parts) all = (all.0.1, All-IsPart parts all.1)

  all_rows_alone : (r : Request o) → all_rows o (r ∷ []) ≡ rows o r
  unfolding all_rows
  all_rows_alone r = append-nil (rows o r)

  -- A request with points is split into something.
  parts_of_some :
      (r : Request o) (parts : List (Request o))
      → all_rows o parts ≡ rows o r
      → 0 < total o r
      → map p.encode_to_vec parts ≢ []
  unfolding all_rows
  parts_of_some r [] kept some_points e =
      absurd (omega (arith, ap length kept, length-rows o r, some_points))
  parts_of_some r (part ∷ parts) kept some_points e = cc

  module _ (laws : IsProst o p) where
    map-decode :
        (parts : List (Request o)) → map p.decode (map p.encode_to_vec parts) ≡ map ok parts
    map-decode [] = refl
    map-decode (r ∷ parts) =
        ap (λ x. x ∷ map p.decode (map p.encode_to_vec parts)) (laws.decode-encode_to_vec r)
        ∙ ap (λ x. ok r ∷ x) (map-decode parts)

    -- By the law of the decoder: where the cap is positive, an export that decodes is split, and the
    -- chunks each decode to a request of at most that many points, together the points of the export
    -- in their order, each under its own resource, scope and metric; and there is a chunk to send.
    pub split_request-Splits :
        0 < max
        → (body : Bytes) (request : Request o) → p.decode body ≡ ok request
        → (chunks : List Bytes) × (split_request o p body max ≡ ok chunks) × Splits request chunks
    unfolding split_request
    split_request-Splits some_max body request decoded =
        elim (Bool-cases (leb (total o request) max)) [
          | inl small ↦ (
            body ∷ [],
            rw (decoded, small) refl,
            record {
              parts = request ∷ [];
              chunks_decoded = ap (λ x. x ∷ []) decoded;
              bounded = (ground arith, tt);
              kept = all_rows_alone request;
              some_chunk = λ none_left. cc;
            },
          )
          | inr large ↦
              let last = over_resources o p max 0 request (initial o) in
              let (parts, closes, all, kept) =
                closed-parts (rows o request) last (
                  over_resources-Keeps o p max some_max [] 0 request (initial o) tt
                    initial-Keeps) in
              (
                closed o p last,
                rw (decoded, large) refl,
                record {
                  parts = parts;
                  chunks_decoded = ap (map p.decode) closes ∙ map-decode parts;
                  bounded = All-IsPart parts all;
                  kept = kept;
                  some_chunk = λ none_left.
                      parts_of_some request parts kept (ground arith) (sym closes ∙ none_left);
                },
              )
        ]
