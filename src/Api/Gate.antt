-- ===== src/Api/Gate.antt =====
-- The admission cap and the CPU gate (zk-verifier/src/api/mod.rs), as a state machine: requests
-- arrive, wait for a CPU permit, verify on a blocking thread, persist and are answered, and a
-- client may disconnect at any time. A permit goes back when what holds it is dropped.
pub mod Balance
pub mod Laws
pub mod Drain
mod Tests
use zee_k_verifier.Prelude.{
  ℕ, zero, suc, ◌+◌, ◌-◌, ◌/◌, min, max, Bool, true, false, List, [], ◌∷◌, ◌++◌, Option, none, some,
  get_elem?, set, unwrap_or,
}

-- The sizes of the two semaphores, from the environment and the number of cores.
abbrev pub max_verify_concurrency : ℕ
max_verify_concurrency = 4096

abbrev pub max_inflight_ceil : ℕ
max_inflight_ceil = 1048576

abbrev pub clamp : ℕ → ℕ → ℕ → ℕ
clamp n low high = min (max n low) high

-- `cores.div_ceil(TFHE_VERIF_POOL_THREADS).max(1)`
default_verify_concurrency : ℕ → ℕ
default_verify_concurrency cores = max ((cores + 31) / 32) 1

-- The variable is given if it parses.
unfoldable pub verify_concurrency_from_env : (parsed : Option ℕ) (cores : ℕ) → ℕ
unfolding default_verify_concurrency
verify_concurrency_from_env parsed cores =
    clamp (unwrap_or (default_verify_concurrency cores) parsed) 1 max_verify_concurrency

unfoldable pub max_inflight_from_env : (parsed : Option ℕ) → ℕ
max_inflight_from_env parsed = clamp (unwrap_or 256 parsed) 1 max_inflight_ceil

-- Where a request is. It is queued once it has a CPU permit and until its blocking task runs; a
-- detached one has lost its client, and its blocking task goes on.
pub data Phase : Type 0 where
  waiting queued running queued_detached running_detached persisting gone : Phase

pub record Gate : Type 0 where
  pub admit_free : ℕ
  pub cpu_free : ℕ
  pub in_flight : ℕ
  pub rejected : ℕ
  pub requests : List Phase

-- What happens to one request: it is refused for its address, gets a CPU permit, its blocking task
-- starts, the task ends with a verified batch or not, it is answered, its client disconnects.
pub data Move : Type 0 where
  refuse acquire start answer disconnect : Move
  finish : (verified : Bool) → Move

pub data Event : Type 0 where
  arrive : Event
  at : ℕ → Move → Event

-- What a move does to the semaphores and the gauge.
pub data Change : Type 0 where
  take_cpu enter release_task release_all release_admission : Change

pub moved : Move → Phase → Option (Phase × Change)
moved refuse waiting = some (gone, release_admission)
moved acquire waiting = some (queued, take_cpu)
moved start queued = some (running, enter)
moved start queued_detached = some (running_detached, enter)
moved (finish true) running = some (persisting, release_task)
moved (finish false) running = some (gone, release_all)
moved (finish _) running_detached = some (gone, release_task)
moved answer persisting = some (gone, release_admission)
moved disconnect waiting = some (gone, release_admission)
moved disconnect queued = some (queued_detached, release_admission)
moved disconnect running = some (running_detached, release_admission)
moved disconnect persisting = some (gone, release_admission)
moved _ _ = none

-- A CPU permit is waited for: without one, the move does not happen.
pub changed : Change → Gate → Option Gate
changed take_cpu g = elim g.cpu_free [
  | zero ↦ none
  | suc free ↦ some (record g { cpu_free = free })
]
changed enter g = some (record g { in_flight = g.in_flight + 1 })
changed release_task g = some (record g { cpu_free = g.cpu_free + 1; in_flight = g.in_flight - 1 })
changed release_all g = some (record g {
  cpu_free = g.cpu_free + 1;
  in_flight = g.in_flight - 1;
  admit_free = g.admit_free + 1;
})
changed release_admission g = some (record g { admit_free = g.admit_free + 1 })

move_to : Gate → ℕ → Option (Phase × Change) → Option Gate
unfolding changed
move_to g i none = none
move_to g i (some (phase, change)) = changed change (record g { requests = set g.requests i phase })

move_at : Gate → ℕ → Move → Option Phase → Option Gate
unfolding move_to moved
move_at g i m none = none
move_at g i m (some phase) = move_to g i (moved m phase)

-- At the cap a request is shed at once, and counted.
admitted : ℕ → Gate → Gate
admitted zero g = record g { rejected = g.rejected + 1 }
admitted (suc free) g = record g { admit_free = free; requests = g.requests ++ waiting ∷ [] }

-- `none`: the event cannot happen in this state.
unfoldable pub step : Event → Gate → Option Gate
unfolding admitted move_at
step arrive g = some (admitted g.admit_free g)
step (at i m) g = move_at g i m (get_elem? g.requests i)

unfoldable pub run : List Event → Gate → Option Gate
run [] g = some g
run (e ∷ es) g = elim (step e g) [ none ↦ none | some g' ↦ run es g' ]

-- `AppState::with_concurrency`
unfoldable pub with_concurrency : (verify admit : ℕ) → Gate
with_concurrency verify admit = record {
  admit_free = max admit 1;
  cpu_free = max verify 1;
  in_flight = 0;
  rejected = 0;
  requests = [];
}
