-- ===== src/Telemetry/Parts.antt =====
-- What the loop keeps: the chunks and the open request hold the points so far, in order.
use mathlib.Core.List.{append_assoc, append-nil}
use zee_k_verifier.Prelude.{
  ℕ, ◌+◌, ◌≤◌, ◌<◌, true, false, List, [], ◌∷◌, ◌++◌, length, map, Option, none, some, All,
  All-append, ltb, ◌≡◌, ◌⊎◌, refl, sym, ap, ◌∙◌, inl, inr, Bool-cases, ==_iff, arith, length-append,
  length-map,
}
use zee_k_verifier.Extern.Otlp.{Otlp, Metric, ScopeMetrics, ResourceMetrics, Request, Prost}
use zee_k_verifier.Telemetry.Split.{
  mirrors, total, Splitting, flushed, with_resource, with_scope, pushed,
}
use zee_k_verifier.Telemetry.Rows.{Row, tagged, points_of, rows, length-rows}
use zee_k_verifier.Telemetry.Shells.{
  in_resource, in_scope, rows-new_resource, rows-new_scope, rows-pushed, in_last-new_scope,
  in_last-pushed,
}

-- An index that was there before.
abbrev pub Lower : Option ℕ → ℕ → Type 0
Lower none n = Unit
Lower (some i) n = i < n

mirrors-Lower : (i : Option ℕ) (n : ℕ) → Lower i n → mirrors i n ≡ false
unfolding mirrors
mirrors-Lower none n low = refl
mirrors-Lower (some i) n low = ground arith

mirrors-some : (i : Option ℕ) (n : ℕ) → i ≡ some n → mirrors i n ≡ true
unfolding mirrors
mirrors-some i n e = rw e ((==_iff n n).1 refl)

pub map-append :
    {A B : Type 0} (f : A → B) (xs ys : List A) → map f (xs ++ ys) ≡ map f xs ++ map f ys
map-append f [] ys = refl
map-append f (x ∷ xs) ys = ap (λ r. f x ∷ r) (map-append f xs ys)

module _ (o : Otlp) where
  -- The points of several requests.
  unfoldable pub all_rows : List (Request o) → List (Row o)
  all_rows [] = []
  all_rows (r ∷ rs) = rows o r ++ all_rows rs

  all_rows-append :
      (rs : List (Request o)) (r : Request o) → all_rows (rs ++ r ∷ []) ≡ all_rows rs ++ rows o r
  unfolding all_rows
  all_rows-append [] r = append-nil (rows o r)
  all_rows-append (r' ∷ rs) r =
      ap (λ x. rows o r' ++ x) (all_rows-append rs r) ∙ sym (append_assoc (rows o r') _ _)

  total_eq : (r r' : Request o) → rows o r ≡ rows o r' → total o r ≡ total o r'
  total_eq r r' e = sym (length-rows o r) ∙ ap length e ∙ length-rows o r'

  module _ (p : Prost o) (max : ℕ) where
    -- A request with a point at least, and no more than the cap.
    abbrev pub IsPart : Request o → Type 0
    IsPart r = (0 < total o r) × (total o r ≤ max)

    pub record Keeps (done : List (Row o)) (s : Splitting o) : Type 0 where
      pub requests : List (Request o)
      pub chunks : s.chunks ≡ map p.encode_to_vec requests
      pub parts : All IsPart requests
      pub kept : all_rows requests ++ rows o s.current ≡ done
      pub counted : s.current_points ≡ total o s.current
      pub within : s.current_points ≤ max

    -- Other shells on the same points.
    reopened-Keeps :
        (done : List (Row o)) (s : Splitting o) (current : Request o) (ri si : Option ℕ)
        → rows o current ≡ rows o s.current
        → Keeps done s
        → Keeps done (record s { current = current; cur_ri = ri; cur_si = si })
    reopened-Keeps done s current ri si same k = record {
      requests = k.requests;
      chunks = k.chunks;
      parts = k.parts;
      kept = ap (λ x. all_rows k.requests ++ x) same ∙ k.kept;
      counted = k.counted ∙ sym (total_eq current s.current same);
      within = k.within;
    }

    -- The open request closed.
    pub closed-Keeps :
        (done : List (Row o)) (s : Splitting o)
        → 0 < s.current_points
        → Keeps done s
        → Keeps done (record {
          chunks = s.chunks ++ p.encode_to_vec s.current ∷ [];
          current = [];
          current_points = 0;
          cur_ri = none;
          cur_si = none;
        })
    unfolding rows total
    closed-Keeps done s some_points k = record {
      requests = k.requests ++ s.current ∷ [];
      chunks =
          ap (λ x. x ++ p.encode_to_vec s.current ∷ []) k.chunks
          ∙ sym (map-append p.encode_to_vec k.requests (s.current ∷ []));
      parts =
          All-append IsPart k.requests (s.current ∷ []) k.parts
            ((omega (arith, k.counted), omega (arith, k.counted, k.within)), tt);
      kept = append-nil _ ∙ all_rows-append k.requests s.current ∙ k.kept;
      counted = refl;
      within = omega arith;
    }

    abbrev pub IsResourceOpen : ℕ → ResourceMetrics o → ℕ → Splitting o → Type 0
    IsResourceOpen ri rm si s =
        (before : Request o) × (sms : List (ScopeMetrics o)) × (s.cur_ri ≡ some ri)
        × Lower s.cur_si si
        × (s.current ≡ in_resource o before rm sms)

    module _ (ri : ℕ) (rm : ResourceMetrics o) (si : ℕ) (sm : ScopeMetrics o) where
      abbrev pub IsScopeOpen : Splitting o → Type 0
      IsScopeOpen s =
          (before : Request o) × (sms : List (ScopeMetrics o)) × (ms : List (Metric o)) × (s.cur_ri
            ≡ some ri)
          × (s.cur_si ≡ some si)
          × (s.current ≡ in_scope o before rm sms sm ms)

      -- Where the shells may stand when a metric of this scope comes.
      abbrev pub IsAt : Splitting o → Type 0
      IsAt s = Lower s.cur_ri ri ⊎ (IsResourceOpen ri rm si s ⊎ IsScopeOpen s)

      pub flushed-Keeps :
          (done : List (Row o)) (s : Splitting o) (points : ℕ)
          → points ≤ max
          → IsAt s
          → Keeps done s
          → Keeps done (flushed o p max points s)
            × IsAt (flushed o p max points s)
            × ((flushed o p max points s).current_points + points ≤ max)
      unfolding flushed
      flushed-Keeps done s points fits stands k =
          elim (Bool-cases (ltb max (s.current_points + points))) [
            | inr within ↦ rw within (k, stands, ground arith)
            | inl over ↦ elim (Bool-cases (ltb 0 s.current_points)) [
              | inr empty ↦ rw (over, empty) (k, stands, ground arith)
              | inl some_points ↦
                  rw (over, some_points)
                    (closed-Keeps done s (ground arith) k, inl tt, omega (arith, fits))
            ]
          ]

      pub with_resource-Keeps :
          (done : List (Row o)) (s : Splitting o)
          → IsAt s
          → Keeps done s
          → Keeps done (with_resource o p ri rm s)
            × (IsResourceOpen ri rm si (with_resource o p ri rm s)
                ⊎ IsScopeOpen (with_resource o p ri rm s))
            × ((with_resource o p ri rm s).current_points ≡ s.current_points)
      unfolding with_resource
      with_resource-Keeps done s (inl low) k = rw (mirrors-Lower s.cur_ri ri low) (
        reopened-Keeps done s _ (some ri) none (rows-new_resource o s.current rm) k,
        inl (s.current, [], refl, tt, refl),
        refl,
      )
      with_resource-Keeps done s (inr (inl (before, sms, at, low, current))) k =
          rw (mirrors-some s.cur_ri ri at) (k, inl (before, sms, at, low, current), refl)
      with_resource-Keeps done s (inr (inr (before, sms, ms, at, at', current))) k =
          rw (mirrors-some s.cur_ri ri at) (k, inr (before, sms, ms, at, at', current), refl)

      pub with_scope-Keeps :
          (done : List (Row o)) (s : Splitting o)
          → IsResourceOpen ri rm si s ⊎ IsScopeOpen s
          → Keeps done s
          → Keeps done (with_scope o p si sm s)
            × IsScopeOpen (with_scope o p si sm s)
            × ((with_scope o p si sm s).current_points ≡ s.current_points)
      unfolding with_scope
      with_scope-Keeps done s (inl (before, sms, at, low, current)) k =
          let opened = in_last-new_scope o s.current before rm sms sm current in
          rw (mirrors-Lower s.cur_si si low) (
            reopened-Keeps done s _ s.cur_ri (some si)
                (ap (rows o) opened ∙ rows-new_scope o before rm sms sm ∙ ap (rows o) (sym current))
                k,
            (before, sms, [], at, refl, opened),
            refl,
          )
      with_scope-Keeps done s (inr (before, sms, ms, at, at', current)) k =
          rw (mirrors-some s.cur_si si at') (k, (before, sms, ms, at, at', current), refl)

      pub pushed-Keeps :
          (done : List (Row o)) (s : Splitting o) (m : Metric o) (points : ℕ)
          → length (points_of o m) ≡ points
          → s.current_points + points ≤ max
          → IsScopeOpen s
          → Keeps done s
          → Keeps (done ++ map (tagged o rm sm) (points_of o m)) (pushed o p m points s)
            × IsScopeOpen (pushed o p m points s)
      unfolding pushed
      pushed-Keeps done s m points counts fits (before, sms, ms, at, at', current) k =
          let filled = in_last-pushed o s.current before rm sms sm ms m current in
          let grown =
            ap (rows o) filled
            ∙ rows-pushed o before rm sms sm ms m
            ∙ ap (λ r. rows o r ++ map (tagged o rm sm) (points_of o m)) (sym current) in
          (
            record {
              requests = k.requests;
              chunks = k.chunks;
              parts = k.parts;
              kept =
                  ap (λ x. all_rows k.requests ++ x) grown
                  ∙ sym (append_assoc (all_rows k.requests) (rows o s.current) _)
                  ∙ ap (λ x. x ++ map (tagged o rm sm) (points_of o m)) k.kept;
              counted = omega (
                arith,
                k.counted,
                counts,
                length-rows o s.current,
                length-map (tagged o rm sm) (points_of o m),
                length-append (rows o s.current) (map (tagged o rm sm) (points_of o m)),
                ap length grown,
                length-rows o (pushed o p m points s).current,
              );
              within = fits;
            },
            (before, sms, ms ++ m ∷ [], at, at', filled),
          )
