-- ===== src/Tests/Onboarding.antt =====
-- The onboarding engine on a device that is a number: the goal of each step is to reach a count.
use smart_home_edge.Prelude.{◌≡◌, refl, ℕ, String, Option, none, some, List, [], ◌∷◌, ◌++◌, leb}
use smart_home_edge.Onboard.{Step, answered, step_error, acting, run, run_step}
use smart_home_edge.Onboard.Order.{Split, step_names, run-Split}
use smart_home_edge.Onboard.Rerun.{Settled, after_skips, run-Settled}

abbrev reach : String → ℕ → Step ℕ String
reach name goal = record {
  name = name;
  check = some (λ d. (answered (leb goal d), d));
  act = some (λ d. (none, goal));
  verify = none;
}

abbrev broken : Step ℕ String
broken = record {
  name = "broken";
  check = none;
  act = some (λ d. (some "no answer", d));
  verify = none;
}

abbrev never : ℕ → Option String
never d = none

abbrev steps : List (Step ℕ String)
steps = reach "account" 1 ∷ reach "store" 2 ∷ broken ∷ reach "agent" 3 ∷ []

-- The run changes the device up to the step that fails.
broken_run :
    ((run never steps 0).0 ≡ 2)
    × ((run never steps 0).2 ≡ some (step_error "broken" acting "no answer"))
unfolding run run_step
broken_run = (refl, refl)

run-Split_example : Split (step_names steps) (run never steps 0)
run-Split_example = run-Split never steps 0

run-Settled_example :
    run never ((reach "account" 1 ∷ []) ++ broken ∷ []) 1
    ≡ after_skips (reach "account" 1 ∷ []) (run never (broken ∷ []) 1)
unfolding Settled
run-Settled_example =
    run-Settled never (reach "account" 1 ∷ []) (broken ∷ []) 1 refl
      (((λ d. (answered (leb 1 d), d)), refl, refl), tt)
