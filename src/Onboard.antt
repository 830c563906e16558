-- ===== src/Onboard.antt =====
-- The resumable onboarding engine (smart-home-agent/internal/onboard/engine.go). `D` is the device
-- and the shared `State`, `E` an error; a step's functions read and change the device, and a nil
-- function is `none`. The reporter's calls are returned in order; its `Info` is not called here.
pub mod Order
pub mod Rerun
use smart_home_edge.Prelude.{String, Bool, true, false, Option, none, some, List, [], ◌∷◌, ◌++◌}

-- A check's outcome: whether the goal holds, or an error.
pub data Checked (E : Type 0) : Type 0 where
  answered : (done : Bool) → Checked E
  unanswered : E → Checked E

pub record Step (D E : Type 0) : Type 0 where
  pub name : String
  pub check : Option (D → Checked E × D)
  -- `none` as an outcome is a nil error
  pub act : Option (D → Option E × D)
  pub verify : Option (D → Option E × D)

pub data Stage : Type 0 where
  checking acting verifying : Stage

pub data Report (E : Type 0) : Type 0 where
  step_started step_skipped step_completed : (name : String) → Report E
  step_failed : (name : String) → Stage → E → Report E

pub data Failure (E : Type 0) : Type 0 where
  aborted : E → Failure E
  step_error : (name : String) → Stage → E → Failure E

-- How a step ended, and how a run stopped: the device, the transcript, and the failure if any.
abbrev pub Ended : Type 0 → Type 0 → Type 0
Ended D E = D × List (Report E) × Option (Stage × E)

abbrev pub Stopped : Type 0 → Type 0 → Type 0
Stopped D E = D × List (Report E) × Option (Failure E)

module _ {D E : Type 0} where
  abbrev pub failing : Stage → D → E → Ended D E
  failing stage d e = (d, [], some (stage, e))

  abbrev pub verified : String → Option E × D → Ended D E
  verified name (some e, d) = failing verifying d e
  verified name (none, d) = (d, step_completed name ∷ [], none)

  abbrev pub then_verify : Step D E → Option E × D → Ended D E
  then_verify s (some e, d) = failing acting d e
  then_verify s (none, d) =
      verified s.name (elim s.verify [ none ↦ (none, d) | some verify ↦ verify d ])

  abbrev pub then_act : Step D E → D → Ended D E
  then_act s d = then_verify s (elim s.act [ none ↦ (none, d) | some act ↦ act d ])

  abbrev pub unless_done : Step D E → Checked E × D → Ended D E
  unless_done s (unanswered e, d) = failing checking d e
  unless_done s (answered true, d) = (d, step_skipped s.name ∷ [], none)
  unless_done s (answered false, d) = then_act s d

  abbrev pub begun : Step D E → D → Ended D E
  begun s d = elim s.check [ none ↦ then_act s d | some check ↦ unless_done s (check d) ]

  abbrev pub announced : String → Ended D E → Ended D E
  announced name (d, reports, e) = (d, step_started name ∷ reports, e)

  unfoldable pub run_step : D → Step D E → Ended D E
  run_step d s = announced s.name (begun s d)

  abbrev pub followed : String → Ended D E → (D → Stopped D E) → Stopped D E
  followed name (d, reports, some (stage, e)) rest =
      (d, reports ++ step_failed name stage e ∷ [], some (step_error name stage e))
  followed name (d, reports, none) rest = ((rest d).0, reports ++ (rest d).1, (rest d).2)

  -- `cancelled` is `ctx.Err()`, asked before each step.
  unfoldable pub run : (cancelled : D → Option E) → List (Step D E) → D → Stopped D E
  unfolding run_step
  run cancelled [] d = (d, [], none)
  run cancelled (s ∷ rest) d = elim (cancelled d) [
    | some e ↦ (d, [], some (aborted e))
    | none ↦ followed s.name (run_step d s) (λ d'. run cancelled rest d')
  ]
