-- ===== src/Api/Gate/Tests.antt =====
-- Two requests through a gate of one, the first of which loses its client.
use zee_k_verifier.Prelude.{[], ◌∷◌, List, some, none, true, max, ◌≤◌, ◌⊎◌, ◌≡◌, refl}
use zee_k_verifier.Api.Gate.{
  Event, arrive, at, acquire, start, finish, answer, disconnect, Gate, gone, running, waiting, run,
  step, with_concurrency,
}
use zee_k_verifier.Api.Gate.Balance.{Balanced, total, holds_admission}
use zee_k_verifier.Api.Gate.Laws.{run_bounds}
use zee_k_verifier.Api.Gate.Drain.{moves_left, IsDrained, IsOpen, run_finishes}

-- The detached task keeps its CPU permit, so the second request cannot have one yet.
kept_test :
    run
      (arrive ∷ at 0 acquire ∷ at 0 start ∷ at 0 disconnect ∷ arrive ∷ at 1 acquire ∷ [])
      (with_concurrency 1 2)
    ≡ none
unfolding run step with_concurrency
kept_test = refl

abbrev events : List Event
events =
    arrive
    ∷ at 0 acquire
    ∷ at 0 start
    ∷ at 0 disconnect
    ∷ arrive
    ∷ at 0 (finish true)
    ∷ at 1 acquire
    ∷ at 1 start
    ∷ at 1 (finish true)
    ∷ at 1 answer
    ∷ []

abbrev end : Gate
end = record {
  admit_free = 2;
  cpu_free = 1;
  in_flight = 0;
  rejected = 0;
  requests = gone ∷ gone ∷ [];
}

ends : run events (with_concurrency 1 2) ≡ some end
unfolding run step with_concurrency
ends = refl

run_bounds_example :
    Balanced (max 1 1) (max 2 1) end
    × (0 ≤ max 1 1)
    × (total holds_admission end.requests ≤ max 2 1)
run_bounds_example = run_bounds 1 2 events end ends

-- Two requests on one permit, after the first has it: six moves are left to them.
abbrev crowded : Gate
crowded = record {
  admit_free = 0;
  cpu_free = 0;
  in_flight = 1;
  rejected = 0;
  requests = running ∷ waiting ∷ [];
}

crowds :
    run (arrive ∷ arrive ∷ at 0 acquire ∷ at 0 start ∷ []) (with_concurrency 1 2) ≡ some crowded
unfolding run step with_concurrency
crowds = refl

abbrev emptied : Gate
emptied = record {
  admit_free = 1;
  cpu_free = 1;
  in_flight = 0;
  rejected = 0;
  requests = gone ∷ waiting ∷ [];
}

empties : run (at 0 disconnect ∷ at 0 (finish true) ∷ []) crowded ≡ some emptied
unfolding run step
empties = refl

run_finishes_example :
    (2 ≤ total moves_left crowded.requests)
    × (IsDrained (max 1 1) (max 2 1) emptied ⊎ IsOpen emptied)
run_finishes_example =
    run_finishes 1 2 (arrive ∷ arrive ∷ at 0 acquire ∷ at 0 start ∷ [])
      (at 0 disconnect ∷ at 0 (finish true) ∷ []) crowded emptied crowds (tt, (tt, tt)) empties
