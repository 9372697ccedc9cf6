-- ===== src/Health/Tests.antt =====
-- Three rounds: the endpoint is up, down, and down again, and then up; the storage comes up late.
use zee_k_verifier.Prelude.{[], ◌∷◌, some, ok, true, false, ◌≡◌, refl}
use zee_k_verifier.Health.{
  answered, unreachable, too_late, probed, store_cts, storage, spawn, rounds, round,
  probe_store_cts, probe_storage,
}
use zee_k_verifier.Health.Laws.{Replies, shown, shown_first, spawn_series}
use zee_k_verifier.Health.Changes.{states, store_cts_found, storage_found}
use zee_k_verifier.Health.Log.{Tells, spawn_log}

abbrev up : Replies
up = (answered 204 [], some (probed (ok tt)))

abbrev down : Replies
down = (unreachable [], some too_late)

-- A redirection within the deadline, which is no success.
abbrev redirected : Replies
redirected = (answered 302 [], some (probed (ok tt)))

-- An outage of two rounds is one line when it begins and one when it ends.
outage :
    (states store_cts (rounds [] [] (up ∷ down ∷ redirected ∷ up ∷ []) (spawn true)).lines
      ≡ true ∷ false ∷ true ∷ [])
    × (states storage (rounds [] [] (up ∷ down ∷ redirected ∷ up ∷ []) (spawn true)).lines
        ≡ true ∷ false ∷ true ∷ [])
unfolding rounds spawn round probe_store_cts probe_storage
outage = (refl, refl)

unhealthy : (rounds [] [] (up ∷ redirected ∷ []) (spawn true)).series.healthy ≡ 0
unfolding rounds spawn round probe_store_cts
unhealthy = refl

spawn_series_example :
    ((rounds [] [] (up ∷ down ∷ redirected ∷ []) (spawn true)).series ≡ shown redirected)
    × ((spawn true).series ≡ shown_first true)
spawn_series_example = spawn_series [] [] true (up ∷ down ∷ []) redirected (tt, (tt, tt)) tt

spawn_log_example :
    Tells store_cts
      (store_cts_found (up ∷ down ∷ redirected ∷ up ∷ []))
      (rounds [] [] (up ∷ down ∷ redirected ∷ up ∷ []) (spawn true)).lines
    × Tells storage
        (storage_found (up ∷ down ∷ redirected ∷ up ∷ []))
        (rounds [] [] (up ∷ down ∷ redirected ∷ up ∷ []) (spawn true)).lines
spawn_log_example = spawn_log [] [] true (up ∷ down ∷ redirected ∷ up ∷ [])
