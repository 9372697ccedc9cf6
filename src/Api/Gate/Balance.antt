-- ===== src/Api/Gate/Balance.antt =====
-- The balance of permits and requests, kept by every step.
use zee_k_verifier.Prelude.{
  ℕ, zero, suc, ◌+◌, ◌-◌, true, false, List, [], ◌∷◌, ◌++◌, Option, none, some, get_elem?, set,
  Option-cases, none-ne-some, some-inj, inl, inr, subst, ◌⊎◌, ◌≡◌, refl, sym, ap, ◌∙◌, arith,
}
use zee_k_verifier.Api.Gate.{
  Phase, waiting, queued, running, queued_detached, running_detached, persisting, Gate, Move,
  refuse, acquire, start, answer, disconnect, finish, Event, arrive, at, Change, take_cpu, enter,
  release_task, release_all, release_admission, moved, changed, move_to, move_at, admitted, step,
  run,
}

-- Who holds an admission permit, a CPU permit, and who is counted as in flight.
abbrev pub holds_admission : Phase → ℕ
holds_admission waiting = 1
holds_admission queued = 1
holds_admission running = 1
holds_admission persisting = 1
holds_admission _ = 0

abbrev pub holds_cpu : Phase → ℕ
holds_cpu queued = 1
holds_cpu running = 1
holds_cpu queued_detached = 1
holds_cpu running_detached = 1
holds_cpu _ = 0

abbrev pub verifies : Phase → ℕ
verifies running = 1
verifies running_detached = 1
verifies _ = 0

abbrev pub total : (Phase → ℕ) → List Phase → ℕ
total f [] = 0
total f (p ∷ ps) = f p + total f ps

total-append : (f : Phase → ℕ) (ps qs : List Phase) → total f (ps ++ qs) ≡ total f ps + total f qs
total-append f [] qs = omega arith
total-append f (p ∷ ps) qs = omega (arith, total-append f ps qs)

pub total-set :
    (f : Phase → ℕ) (ps : List Phase) (i : ℕ) (p q : Phase)
    → get_elem? ps i ≡ some p
    → total f (set ps i q) + f p ≡ total f ps + f q
total-set f [] i p q e = absurd (none-ne-some e)
total-set f (r ∷ ps) zero p q e = let same : f r ≡ f p = ap f (some-inj e) in omega arith
total-set f (r ∷ ps) (suc i) p q e = omega (arith, total-set f ps i p q e)

-- Every permit is free or held, and the gauge counts the running tasks.
pub record Balanced (verify admit : ℕ) (g : Gate) : Type 0 where
  pub admission : g.admit_free + total holds_admission g.requests ≡ admit
  pub cpu : g.cpu_free + total holds_cpu g.requests ≡ verify
  pub gauge : g.in_flight ≡ total verifies g.requests

-- What a change of the semaphores and the gauge is worth to the holders.
abbrev Worth : Change → Phase → Phase → Type 0
Worth take_cpu p q =
    (holds_admission p ≡ holds_admission q)
    × (holds_cpu p + 1 ≡ holds_cpu q)
    × (verifies p ≡ verifies q)
Worth enter p q =
    (holds_admission p ≡ holds_admission q)
    × (holds_cpu p ≡ holds_cpu q)
    × (verifies p + 1 ≡ verifies q)
Worth release_task p q =
    (holds_admission p ≡ holds_admission q)
    × (holds_cpu p ≡ holds_cpu q + 1)
    × (verifies p ≡ verifies q + 1)
Worth release_all p q =
    (holds_admission p ≡ holds_admission q + 1)
    × (holds_cpu p ≡ holds_cpu q + 1)
    × (verifies p ≡ verifies q + 1)
Worth release_admission p q =
    (holds_admission p ≡ holds_admission q + 1)
    × (holds_cpu p ≡ holds_cpu q)
    × (verifies p ≡ verifies q)

abbrev Fair : Phase → Option (Phase × Change) → Type 0
Fair p none = Unit
Fair p (some (q, change)) = Worth change p q

moved-Fair : (m : Move) (p : Phase) → Fair p (moved m p)
unfolding moved
moved-Fair refuse waiting = (refl, refl, refl)
moved-Fair refuse _ = tt
moved-Fair acquire waiting = (refl, refl, refl)
moved-Fair acquire _ = tt
moved-Fair start queued = (refl, refl, refl)
moved-Fair start queued_detached = (refl, refl, refl)
moved-Fair start _ = tt
moved-Fair answer persisting = (refl, refl, refl)
moved-Fair answer _ = tt
moved-Fair disconnect waiting = (refl, refl, refl)
moved-Fair disconnect queued = (refl, refl, refl)
moved-Fair disconnect running = (refl, refl, refl)
moved-Fair disconnect persisting = (refl, refl, refl)
moved-Fair disconnect _ = tt
moved-Fair (finish true) running = (refl, refl, refl)
moved-Fair (finish true) running_detached = (refl, refl, refl)
moved-Fair (finish true) _ = tt
moved-Fair (finish false) running = (refl, refl, refl)
moved-Fair (finish false) running_detached = (refl, refl, refl)
moved-Fair (finish false) _ = tt

pub ℕ-cases : (n : ℕ) → (n ≡ 0) ⊎ ((m : ℕ) × (n ≡ suc m))
ℕ-cases zero = inl refl
ℕ-cases (suc m) = inr (m, refl)

module _ (verify admit : ℕ) where
  module _ (g : Gate) (i : ℕ) (p q : Phase) (b : Balanced verify admit g)
      (e : get_elem? g.requests i ≡ some p) where
    -- New numbers that make up for a request's move keep the balance.
    rebalanced :
        (admit_free cpu_free in_flight : ℕ)
        → admit_free + holds_admission q ≡ g.admit_free + holds_admission p
        → cpu_free + holds_cpu q ≡ g.cpu_free + holds_cpu p
        → in_flight + verifies p ≡ g.in_flight + verifies q
        → Balanced verify admit (record g {
          admit_free = admit_free;
          cpu_free = cpu_free;
          in_flight = in_flight;
          requests = set g.requests i q;
        })
    rebalanced admit_free cpu_free in_flight a c f = record {
      admission = omega (arith, b.admission, total-set holds_admission g.requests i p q e);
      cpu = omega (arith, b.cpu, total-set holds_cpu g.requests i p q e);
      gauge = omega (arith, b.gauge, total-set verifies g.requests i p q e);
    }

    in_flight-positive : verifies p ≡ verifies q + 1 → g.in_flight ≡ (g.in_flight - 1) + 1
    in_flight-positive w = omega (arith, b.gauge, total-set verifies g.requests i p q e)

    -- A change worth what its phases say keeps the balance.
    changed-Balanced :
        (g' : Gate) (change : Change)
        → Worth change p q
        → changed change (record g { requests = set g.requests i q }) ≡ some g'
        → Balanced verify admit g'
    unfolding changed
    changed-Balanced g' take_cpu w done = elim (ℕ-cases g.cpu_free) [
      | inl none_free ↦ absurd (none-ne-some (sym (rw (none_free, changed) refl) ∙ done))
      | inr (free, has) ↦
          subst (Balanced verify admit) (some-inj (sym (rw (has, changed) refl) ∙ done))
            (rebalanced g.admit_free free g.in_flight (omega arith) (omega arith) (omega arith))
    ]
    changed-Balanced g' enter w done = subst (Balanced verify admit) (some-inj done) (
        rebalanced g.admit_free g.cpu_free (g.in_flight + 1) (omega arith) (omega arith)
          (omega arith))
    changed-Balanced g' release_task w done = subst (Balanced verify admit) (some-inj done) (
        rebalanced g.admit_free (g.cpu_free + 1) (g.in_flight - 1) (omega arith) (omega arith)
          (omega (arith, in_flight-positive w.2)))
    changed-Balanced g' release_all w done = subst (Balanced verify admit) (some-inj done) (
        rebalanced (g.admit_free + 1) (g.cpu_free + 1) (g.in_flight - 1) (omega arith) (omega arith)
          (omega (arith, in_flight-positive w.2)))
    changed-Balanced g' release_admission w done = subst (Balanced verify admit) (some-inj done) (
        rebalanced (g.admit_free + 1) g.cpu_free g.in_flight (omega arith) (omega arith)
          (omega arith))

  move_to-Balanced :
      (g g' : Gate) (i : ℕ) (p : Phase) (next : Option (Phase × Change))
      → Balanced verify admit g
      → get_elem? g.requests i ≡ some p
      → Fair p next
      → move_to g i next ≡ some g'
      → Balanced verify admit g'
  unfolding move_to
  move_to-Balanced g g' i p none b e fair done = absurd (none-ne-some done)
  move_to-Balanced g g' i p (some (q, change)) b e fair done =
      changed-Balanced g i p q b e g' change fair done

  move_at-Balanced :
      (g g' : Gate) (i : ℕ) (m : Move) (p : Option Phase)
      → Balanced verify admit g
      → get_elem? g.requests i ≡ p
      → move_at g i m p ≡ some g'
      → Balanced verify admit g'
  unfolding move_at
  move_at-Balanced g g' i m none b e done = absurd (none-ne-some done)
  move_at-Balanced g g' i m (some p) b e done =
      move_to-Balanced g g' i p (moved m p) b e (moved-Fair m p) done

  admitted-Balanced :
      (g : Gate) (free : ℕ)
      → free ≡ g.admit_free
      → Balanced verify admit g
      → Balanced verify admit (admitted free g)
  unfolding admitted
  admitted-Balanced g zero same b = record { admission = b.admission; cpu = b.cpu; gauge = b.gauge }
  admitted-Balanced g (suc free) same b = record {
    admission = omega (arith, b.admission, total-append holds_admission g.requests (waiting ∷ []));
    cpu = omega (arith, b.cpu, total-append holds_cpu g.requests (waiting ∷ []));
    gauge = omega (arith, b.gauge, total-append verifies g.requests (waiting ∷ []));
  }

  step-Balanced :
      (e : Event) (g g' : Gate)
      → Balanced verify admit g
      → step e g ≡ some g'
      → Balanced verify admit g'
  unfolding step
  step-Balanced arrive g g' b done =
      subst (Balanced verify admit) (some-inj done) (admitted-Balanced g g.admit_free refl b)
  step-Balanced (at i m) g g' b done =
      move_at-Balanced g g' i m (get_elem? g.requests i) b refl done

  pub run-Balanced :
      (es : List Event) (g g' : Gate)
      → Balanced verify admit g
      → run es g ≡ some g'
      → Balanced verify admit g'
  unfolding run
  run-Balanced [] g g' b done = subst (Balanced verify admit) (some-inj done) b
  run-Balanced (e ∷ es) g g' b done = elim (Option-cases (step e g)) [
    | inl stuck ↦ absurd (none-ne-some (sym (rw (stuck, run) refl) ∙ done))
    | inr (g1, stepped) ↦
        run-Balanced es g1 g' (step-Balanced e g g1 b stepped) (sym (rw (stepped, run) refl) ∙ done)
  ]
