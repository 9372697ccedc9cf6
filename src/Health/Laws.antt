-- ===== src/Health/Laws.antt =====
-- What the published health says.
use zee_k_verifier.Prelude.{
  if◌then◌else◌, ℕ, ◌/◌, Bool, true, false, ◌&&◌, List, [], ◌∷◌, ◌++◌, Option, none, some, ok, err,
  Text, All, leb, ◌==◌, ◌≡◌, refl, ap, ◌∙◌, arith,
}
use zee_k_verifier.Health.{
  HealthReply, answered, unreachable, too_late, StorageReply, probed, probe_store_cts,
  probe_storage, storage_result, is_ok, Series, publish, Loop, round, spawn, rounds,
}

abbrev pub Replies : Type 0
Replies = HealthReply × Option StorageReply

-- The storage is probed in a round exactly if it is configured.
abbrev pub Fits : Bool → Replies → Type 0
Fits true (_, none) = ⊥
Fits true (_, some _) = Unit
Fits false (_, none) = Unit
Fits false (_, some _) = ⊥

-- What a reply says of its dependency: that of the endpoint, that it is well if a status in the
-- two hundreds came in time; that of the storage, if its probe came back well in time.
abbrev pub is_well : HealthReply → Bool
is_well (answered status shown) = status / 100 == 2
is_well (unreachable e) = false
is_well too_late = false

abbrev pub is_stored : StorageReply → Bool
is_stored (probed (ok _)) = true
is_stored (probed (err e)) = false
is_stored too_late = false

abbrev pub gauge : Bool → ℕ
gauge true = 1
gauge false = 0

-- What the series are to show after a round, case by case.
abbrev pub shown : Replies → Series
shown (cts_reply, none) = record {
  store_cts_up = gauge (is_well cts_reply);
  storage_up = none;
  healthy = gauge (is_well cts_reply);
}
shown (cts_reply, some reply) = record {
  store_cts_up = gauge (is_well cts_reply);
  storage_up = some (gauge (is_stored reply));
  healthy = gauge (is_well cts_reply && is_stored reply);
}

-- And before the first round.
abbrev pub shown_first : (has_storage : Bool) → Series
shown_first true = record { store_cts_up = 0; storage_up = some 0; healthy = 0 }
shown_first false = record { store_cts_up = 0; storage_up = none; healthy = 0 }

two_hundreds : (status : ℕ) → (leb 200 status && leb status 299) ≡ (status / 100 == 2)
two_hundreds status = ground arith

is_ok_if : (b : Bool) (e : Text) → is_ok (if b then ok tt else err e) ≡ b
is_ok_if true e = refl
is_ok_if false e = refl

publish_storage :
    (up stored : Bool) (old : Series)
    → publish up (some stored) old ≡ record {
      store_cts_up = gauge up;
      storage_up = some (gauge stored);
      healthy = gauge (up && stored);
    }
unfolding publish
publish_storage true true old = refl
publish_storage true false old = refl
publish_storage false true old = refl
publish_storage false false old = refl

publish_without_storage :
    (up : Bool) (old : Series)
    → old.storage_up ≡ none
    → publish up none old
      ≡ record { store_cts_up = gauge up; storage_up = none; healthy = gauge up }
unfolding publish
publish_without_storage true old e =
    ap (λ s. record { store_cts_up = 1; storage_up = s; healthy = 1 }) e
publish_without_storage false old e =
    ap (λ s. record { store_cts_up = 0; storage_up = s; healthy = 0 }) e

module _ (endpoint backend_name : Text) where
  pub probe_store_cts-is_well :
      (reply : HealthReply) → is_ok (probe_store_cts endpoint reply) ≡ is_well reply
  unfolding probe_store_cts
  probe_store_cts-is_well (answered status words) =
      is_ok_if (leb 200 status && leb status 299) _ ∙ two_hundreds status
  probe_store_cts-is_well (unreachable e) = refl
  probe_store_cts-is_well too_late = refl

  pub storage_result-is_stored :
      (reply : StorageReply) → is_ok (storage_result backend_name reply) ≡ is_stored reply
  unfolding storage_result
  storage_result-is_stored (probed (ok _)) = refl
  storage_result-is_stored (probed (err e)) = refl
  storage_result-is_stored too_late = refl

  -- A series for the storage is there exactly if storage is configured.
  abbrev Carries : Bool → Series → Type 0
  Carries true series = Unit
  Carries false series = series.storage_up ≡ none

  round-shown :
      (has_storage : Bool) (r : Replies) (loop : Loop)
      → Fits has_storage r
      → Carries has_storage loop.series
      → ((round endpoint backend_name r loop).series ≡ shown r)
        × Carries has_storage (round endpoint backend_name r loop).series
  unfolding round probe_storage
  round-shown true (cts_reply, none) loop fits carries = absurd fits
  round-shown true (cts_reply, some reply) loop fits carries = (
    rw (probe_store_cts-is_well cts_reply, storage_result-is_stored reply)
        (publish_storage (is_well cts_reply) (is_stored reply) loop.series),
    tt,
  )
  round-shown false (cts_reply, none) loop fits carries =
      let series =
        ap (λ b. publish b none loop.series) (probe_store_cts-is_well cts_reply)
        ∙ publish_without_storage (is_well cts_reply) loop.series carries in
      (series, ap (λ (s : Series). s.storage_up) series)
  round-shown false (cts_reply, some reply) loop fits carries = absurd fits

  rounds-shown :
      (has_storage : Bool) (rs : List Replies) (last : Replies) (loop : Loop)
      → All (Fits has_storage) rs
      → Fits has_storage last
      → Carries has_storage loop.series
      → (rounds endpoint backend_name (rs ++ last ∷ []) loop).series ≡ shown last
  unfolding rounds
  rounds-shown has_storage [] last loop fit fits carries =
      (round-shown has_storage last loop fits carries).0
  rounds-shown has_storage (r ∷ rs) last loop fit fits carries =
      rounds-shown has_storage rs last (round endpoint backend_name r loop) fit.1 fits
        (round-shown has_storage r loop fit.0 carries).1

  -- What is published depends on the replies of the latest round alone: the endpoint is up if it
  -- answered in time with a status in the two hundreds, the storage if its probe came back well in
  -- time, and the service is healthy if all of them are up; the storage has a series only if it is
  -- configured. Before the first round everything that is configured is down, and the service is
  -- not healthy.
  pub spawn_series :
      (has_storage : Bool) (rs : List Replies) (last : Replies)
      → All (Fits has_storage) rs
      → Fits has_storage last
      → ((rounds endpoint backend_name (rs ++ last ∷ []) (spawn has_storage)).series ≡ shown last)
        × ((spawn has_storage).series ≡ shown_first has_storage)
  unfolding spawn publish
  spawn_series true rs last fit fits = (rounds-shown true rs last (spawn true) fit fits tt, refl)
  spawn_series false rs last fit fits =
      (rounds-shown false rs last (spawn false) fit fits refl, refl)
