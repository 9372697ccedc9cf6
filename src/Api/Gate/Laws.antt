-- ===== src/Api/Gate/Laws.antt =====
-- The bounds of the gate, and that no permit is lost.
use zee_k_verifier.Prelude.{ℕ, ◌≤◌, max, List, [], ◌∷◌, some, All, ◌≡◌, refl, ap, arith}
use zee_k_verifier.Api.Gate.{
  Phase, running, running_detached, gone, Gate, Event, run, with_concurrency,
}
use zee_k_verifier.Api.Gate.Balance.{
  Balanced, total, holds_admission, holds_cpu, verifies, run-Balanced,
}

-- In every state that a service reaches, whoever disconnects and whenever: each permit of both
-- semaphores is free or held by exactly one request, and the gauge counts the running verifies; so
-- no more run at once than there are CPU permits, and no more are admitted than the cap.
pub run_bounds :
    (verify admit : ℕ) (es : List Event) (g : Gate)
    → run es (with_concurrency verify admit) ≡ some g
    → Balanced (max verify 1) (max admit 1) g
      × (g.in_flight ≤ max verify 1)
      × (total holds_admission g.requests ≤ max admit 1)
unfolding with_concurrency
run_bounds verify admit es g reached =
    let initial : Balanced (max verify 1) (max admit 1) (with_concurrency verify admit) = record {
      admission = omega arith;
      cpu = omega arith;
      gauge = refl;
    } in
    let b =
      run-Balanced (max verify 1) (max admit 1) es (with_concurrency verify admit) g initial
        reached in
    (b, omega (arith, b.gauge, b.cpu, verifies-hold g.requests), omega (arith, b.admission))
  where
    verifies-hold : (ps : List Phase) → total verifies ps ≤ total holds_cpu ps
    verifies-hold [] = omega arith
    verifies-hold (p ∷ ps) = omega (arith, each p, verifies-hold ps)
      where
        each : (p : Phase) → verifies p ≤ holds_cpu p
        each running = omega arith
        each running_detached = omega arith
        each _ = omega arith

-- Once every request is gone, all permits are free and the gauge is zero.
pub run_drains :
    (verify admit : ℕ) (es : List Event) (g : Gate)
    → run es (with_concurrency verify admit) ≡ some g
    → All (λ p. p ≡ gone) g.requests
    → (g.admit_free ≡ max admit 1) × (g.cpu_free ≡ max verify 1) × (g.in_flight ≡ 0)
run_drains verify admit es g reached over =
    let (b, _, _) = run_bounds verify admit es g reached in
    (
      omega (arith, b.admission, none_hold holds_admission refl g.requests over),
      omega (arith, b.cpu, none_hold holds_cpu refl g.requests over),
      omega (arith, b.gauge, none_hold verifies refl g.requests over),
    )
  where
    none_hold :
        (f : Phase → ℕ) → f gone ≡ 0 → (ps : List Phase) → All (λ p. p ≡ gone) ps → total f ps ≡ 0
    none_hold f h [] all = refl
    none_hold f h (p ∷ ps) all = omega (arith, h, ap f all.0, none_hold f h ps all.1)
