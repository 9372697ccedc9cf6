-- ===== src/Api/Gate/Drain.antt =====
-- That the requests drain: what the moves of one request bring it nearer to, and that one is open.
use zee_k_verifier.Prelude.{
  ℕ, suc, ◌+◌, ◌≤◌, ◌<◌, true, false, List, [], ◌∷◌, length, Option, none, some, get_elem?, set,
  max, All, Option-cases, none-ne-some, some-inj, inl, inr, subst, ◌⊎◌, ◌≡◌, refl, sym, ap, ◌∙◌,
  arith,
}
use zee_k_verifier.Api.Gate.{
  Phase, waiting, queued, running, queued_detached, running_detached, persisting, gone, Gate, Move,
  refuse, acquire, start, answer, disconnect, finish, Event, arrive, at, Change, take_cpu, enter,
  release_task, release_all, release_admission, moved, changed, move_to, move_at, step, run,
  with_concurrency,
}
use zee_k_verifier.Api.Gate.Balance.{
  holds_admission, holds_cpu, verifies, total, total-set, Balanced, run-Balanced, ℕ-cases,
}
use zee_k_verifier.Api.Gate.Laws.{run_bounds}

-- How many moves a request can still make.
abbrev pub moves_left : Phase → ℕ
moves_left waiting = 4
moves_left queued = 3
moves_left running = 2
moves_left persisting = 1
moves_left queued_detached = 2
moves_left running_detached = 1
moves_left gone = 0

-- A move of a request that is there; and a move that needs neither a client that leaves nor a bad
-- address.
abbrev pub IsMove : Event → Type 0
IsMove arrive = ⊥
IsMove (at i m) = Unit

abbrev pub IsOwn : Move → Type 0
IsOwn refuse = ⊥
IsOwn disconnect = ⊥
IsOwn _ = Unit

-- Every permit is free, and nothing runs.
pub record IsDrained (verify admit : ℕ) (g : Gate) : Type 0 where
  pub admission : g.admit_free ≡ admit
  pub cpu : g.cpu_free ≡ verify
  pub gauge : g.in_flight ≡ 0

-- Some request can make a move of its own.
abbrev pub IsOpen : Gate → Type 0
IsOpen g = (i : ℕ) × (m : Move) × (g' : Gate) × IsOwn m × (step (at i m) g ≡ some g')

abbrev Lower : Phase → Option (Phase × Change) → Type 0
Lower p none = Unit
Lower p (some (q, change)) = moves_left q < moves_left p

moved-Lower : (m : Move) (p : Phase) → Lower p (moved m p)
unfolding moved
moved-Lower refuse waiting = omega arith
moved-Lower refuse _ = tt
moved-Lower acquire waiting = omega arith
moved-Lower acquire _ = tt
moved-Lower start queued = omega arith
moved-Lower start queued_detached = omega arith
moved-Lower start _ = tt
moved-Lower answer persisting = omega arith
moved-Lower answer _ = tt
moved-Lower disconnect waiting = omega arith
moved-Lower disconnect queued = omega arith
moved-Lower disconnect running = omega arith
moved-Lower disconnect persisting = omega arith
moved-Lower disconnect _ = tt
moved-Lower (finish true) running = omega arith
moved-Lower (finish true) running_detached = omega arith
moved-Lower (finish true) _ = tt
moved-Lower (finish false) running = omega arith
moved-Lower (finish false) running_detached = omega arith
moved-Lower (finish false) _ = tt

changed-requests :
    (change : Change) (g g' : Gate) → changed change g ≡ some g' → g.requests ≡ g'.requests
unfolding changed
changed-requests take_cpu g g' e = elim (ℕ-cases g.cpu_free) [
  | inl none_free ↦ absurd (none-ne-some (sym (rw (none_free, changed) refl) ∙ e))
  | inr (free, has) ↦ ap (λ (x : Gate). x.requests) (some-inj (rw has at e))
]
changed-requests enter g g' e = ap (λ (x : Gate). x.requests) (some-inj e)
changed-requests release_task g g' e = ap (λ (x : Gate). x.requests) (some-inj e)
changed-requests release_all g g' e = ap (λ (x : Gate). x.requests) (some-inj e)
changed-requests release_admission g g' e = ap (λ (x : Gate). x.requests) (some-inj e)

move_to-lt :
    (g g' : Gate) (i : ℕ) (p : Phase) (next : Option (Phase × Change))
    → get_elem? g.requests i ≡ some p
    → Lower p next
    → move_to g i next ≡ some g'
    → total moves_left g'.requests < total moves_left g.requests
unfolding move_to
move_to-lt g g' i p none there low e = absurd (none-ne-some e)
move_to-lt g g' i p (some (q, change)) there low e =
    let same = changed-requests change (record g { requests = set g.requests i q }) g' e in
    subst (λ (ps : List Phase). total moves_left ps < total moves_left g.requests) same
      (omega (arith, total-set moves_left g.requests i p q there))

move_at-lt :
    (g g' : Gate) (i : ℕ) (m : Move) (p : Option Phase)
    → get_elem? g.requests i ≡ p
    → move_at g i m p ≡ some g'
    → total moves_left g'.requests < total moves_left g.requests
unfolding move_at
move_at-lt g g' i m none there e = absurd (none-ne-some e)
move_at-lt g g' i m (some p) there e = move_to-lt g g' i p (moved m p) there (moved-Lower m p) e

step-lt :
    (e : Event) (g g' : Gate)
    → IsMove e
    → step e g ≡ some g'
    → total moves_left g'.requests < total moves_left g.requests
unfolding step
step-lt arrive g g' own e = absurd own
step-lt (at i m) g g' own e = move_at-lt g g' i m (get_elem? g.requests i) refl e

run-le :
    (es : List Event) (g g' : Gate)
    → All IsMove es
    → run es g ≡ some g'
    → length es + total moves_left g'.requests ≤ total moves_left g.requests
unfolding run
run-le [] g g' own e = omega (arith, ap (λ (x : Gate). total moves_left x.requests) (some-inj e))
run-le (e ∷ es) g g' own done = elim (Option-cases (step e g)) [
  | inl stuck ↦ absurd (none-ne-some (sym (rw (stuck, run) refl) ∙ done))
  | inr (g1, stepped) ↦ omega (
    arith,
    step-lt e g g1 own.0 stepped,
    run-le es g1 g' own.1 (sym (rw (stepped, run) refl) ∙ done),
  )
]

-- A request that needs no permit to go on.
abbrev IsBusy : Phase → Type 0
IsBusy waiting = ⊥
IsBusy gone = ⊥
IsBusy _ = Unit

step_there :
    (g g' : Gate) (i : ℕ) (m : Move) (p q : Phase) (change : Change)
    → get_elem? g.requests i ≡ some p
    → moved m p ≡ some (q, change)
    → changed change (record g { requests = set g.requests i q }) ≡ some g'
    → step (at i m) g ≡ some g'
unfolding step move_at move_to
step_there g g' i m p q change there moves done = rw there (rw moves done)

busy-IsOpen : (g : Gate) (i : ℕ) (p : Phase) → get_elem? g.requests i ≡ some p → IsBusy p → IsOpen g
unfolding moved changed
busy-IsOpen g i waiting there busy = absurd busy
busy-IsOpen g i queued there busy =
    (i, start, _, tt, step_there g _ i start queued _ _ there refl refl)
busy-IsOpen g i running there busy =
    (i, finish true, _, tt, step_there g _ i (finish true) running _ _ there refl refl)
busy-IsOpen g i queued_detached there busy =
    (i, start, _, tt, step_there g _ i start queued_detached _ _ there refl refl)
busy-IsOpen g i running_detached there busy =
    (i, finish true, _, tt, step_there g _ i (finish true) running_detached _ _ there refl refl)
busy-IsOpen g i persisting there busy =
    (i, answer, _, tt, step_there g _ i answer persisting _ _ there refl refl)
busy-IsOpen g i gone there busy = absurd busy

waiting-IsOpen :
    (g : Gate) (i free : ℕ)
    → get_elem? g.requests i ≡ some waiting
    → g.cpu_free ≡ suc free
    → IsOpen g
unfolding moved changed
waiting-IsOpen g i free there has =
    let next : Gate = record g { cpu_free = free; requests = set g.requests i queued } in
    (
      i,
      acquire,
      next,
      tt,
      step_there g next i acquire waiting queued take_cpu there refl (rw has refl),
    )

-- Either a request needs no permit, or none is held on the CPU and one waits or none is admitted.
abbrev Scan : List Phase → Type 0
Scan ps =
    ((i : ℕ) × (p : Phase) × (get_elem? ps i ≡ some p) × IsBusy p)
    ⊎ ((total holds_cpu ps ≡ 0)
        × (total verifies ps ≡ 0)
        × (((i : ℕ) × (get_elem? ps i ≡ some waiting)) ⊎ (total holds_admission ps ≡ 0)))

scan : (ps : List Phase) → Scan ps
scan [] = inr (refl, refl, inr refl)
scan (waiting ∷ ps) = elim (scan ps) [
  | inl (i, p, there, busy) ↦ inl (suc i, p, there, busy)
  | inr (cpu, runs, rest) ↦ inr (omega (arith, cpu), omega (arith, runs), inl (0, refl))
]
scan (gone ∷ ps) = elim (scan ps) [
  | inl (i, p, there, busy) ↦ inl (suc i, p, there, busy)
  | inr (cpu, runs, inl (i, there)) ↦
      inr (omega (arith, cpu), omega (arith, runs), inl (suc i, there))
  | inr (cpu, runs, inr free) ↦
      inr (omega (arith, cpu), omega (arith, runs), inr (omega (arith, free)))
]
scan (queued ∷ ps) = inl (0, queued, refl, tt)
scan (running ∷ ps) = inl (0, running, refl, tt)
scan (queued_detached ∷ ps) = inl (0, queued_detached, refl, tt)
scan (running_detached ∷ ps) = inl (0, running_detached, refl, tt)
scan (persisting ∷ ps) = inl (0, persisting, refl, tt)

drains_or_moves :
    (verify admit : ℕ) (g : Gate)
    → 0 < verify
    → Balanced verify admit g
    → IsDrained verify admit g ⊎ IsOpen g
drains_or_moves verify admit g some_permit b = elim (scan g.requests) [
  | inl (i, p, there, busy) ↦ inr (busy-IsOpen g i p there busy)
  | inr (cpu, runs, inl (i, there)) ↦ elim (ℕ-cases g.cpu_free) [
    | inl none_free ↦ absurd (omega (arith, b.cpu))
    | inr (free, has) ↦ inr (waiting-IsOpen g i free there has)
  ]
  | inr (cpu, runs, inr free) ↦ inl (record {
    admission = omega (arith, b.admission);
    cpu = omega (arith, b.cpu);
    gauge = b.gauge ∙ runs;
  })
]

-- After any history of a server's gate, when nothing more arrives, the requests can make at most
-- as many moves as they have left, in whatever order they make them, clients that disconnect and
-- refused addresses included; and wherever they then are, either every permit is free again and
-- nothing runs, or some request can make a move that waits for no client.
pub run_finishes :
    (verify admit : ℕ) (history moves : List Event) (g g' : Gate)
    → run history (with_concurrency verify admit) ≡ some g
    → All IsMove moves
    → run moves g ≡ some g'
    → (length moves ≤ total moves_left g.requests)
      × (IsDrained (max verify 1) (max admit 1) g' ⊎ IsOpen g')
run_finishes verify admit history moves g g' before own after = (
  omega (arith, run-le moves g g' own after),
  drains_or_moves (max verify 1) (max admit 1) g' (omega arith) (
      run-Balanced (max verify 1) (max admit 1) moves g g'
        (run_bounds verify admit history g before).0 after),
)
