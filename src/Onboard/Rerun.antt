-- ===== src/Onboard/Rerun.antt =====
-- A run that stopped is resumed by running the same steps again
-- (smart-home-agent/internal/onboard/engine.go).
use smart_home_edge.Prelude.{◌≡◌, refl, ap, true, Option, none, some, List, [], ◌∷◌, ◌++◌, All}
use smart_home_edge.Onboard.{
  Step, Checked, answered, Report, step_started, step_skipped, Stopped, run_step, run,
}

module _ {D E : Type 0} where
  -- The step's check says that the goal holds, and leaves the device as it is.
  unfoldable pub Settled : D → Step D E → Type 0
  Settled d s =
      (check : (D → Checked E × D)) × (s.check ≡ some check) × (check d ≡ (answered true, d))

  abbrev pub skips : List (Step D E) → List (Report E)
  skips [] = []
  skips (s ∷ rest) = step_started s.name ∷ step_skipped s.name ∷ skips rest

  abbrev pub after_skips : List (Step D E) → Stopped D E → Stopped D E
  after_skips done (d, reports, failure) = (d, skips done ++ reports, failure)

  step-Settled :
      (d : D) (s : Step D E)
      → Settled d s
      → run_step d s ≡ (d, step_started s.name ∷ step_skipped s.name ∷ [], none)
  unfolding run_step Settled
  step-Settled d s (check, checked, says) = rw (checked, says) refl

  -- Where the context is not cancelled, steps whose goals hold are skipped without touching the
  -- device: a run over them and more steps does what a run over the other steps does, after a
  -- transcript that reports each of them as skipped.
  pub run-Settled :
      (cancelled : D → Option E) (done steps : List (Step D E)) (d : D)
      → cancelled d ≡ none
      → All (Settled d) done
      → run cancelled (done ++ steps) d ≡ after_skips done (run cancelled steps d)
  unfolding run
  run-Settled cancelled [] steps d going h = refl
  run-Settled cancelled (s ∷ done) steps d going h =
      rw (going, step-Settled d s h.0)
        (ap (λ (r : Stopped D E). (r.0, step_started s.name ∷ step_skipped s.name ∷ r.1, r.2))
          (run-Settled cancelled done steps d going h.1))
