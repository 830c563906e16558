-- ===== src/Onboard/Order.antt =====
-- The engine takes its steps in order and stops at the first that fails
-- (smart-home-agent/internal/onboard/engine.go).
use smart_home_edge.Prelude.{
  true, false, ◌≡◌, refl, ap, inl, inr, String, Option, none, some, List, [], ◌∷◌, ◌++◌,
  Option-cases,
}
use smart_home_edge.Onboard.{
  Step, Report, step_started, step_skipped, step_completed, step_failed, Failure, aborted,
  step_error, Ended, Stopped, run_step, run, followed, announced, begun, then_act, unless_done,
  verified, then_verify, Checked, answered, unanswered,
}

-- The steps that a transcript says are done, and those that it says failed.
abbrev pub done_names : {E : Type 0} → List (Report E) → List String
done_names [] = []
done_names (step_started n ∷ rs) = done_names rs
done_names (step_skipped n ∷ rs) = n ∷ done_names rs
done_names (step_completed n ∷ rs) = n ∷ done_names rs
done_names (step_failed n stage e ∷ rs) = done_names rs

-- What a step that ended has added to the steps that are done.
DoneBy : {D E : Type 0} → String → Ended D E → Type 0
DoneBy name (d, reports, none) = done_names reports ≡ name ∷ []
DoneBy name (d, reports, some (stage, e)) = done_names reports ≡ []

-- The steps that are left belong to the way the run stopped: none after a success, the failed step
-- first after a failure, and at least one after a cancelled context.
unfoldable pub Left : {E : Type 0} → Option (Failure E) → List String → Type 0
Left none rest = rest ≡ []
Left (some (step_error name stage e)) rest = (later : List String) × (rest ≡ name ∷ later)
Left (some (aborted e)) rest = (name : String) × (later : List String) × (rest ≡ name ∷ later)

done_names-append :
    {E : Type 0} (xs ys : List (Report E)) → done_names (xs ++ ys) ≡ done_names xs ++ done_names ys
done_names-append [] ys = refl
done_names-append (step_started n ∷ xs) ys = done_names-append xs ys
done_names-append (step_skipped n ∷ xs) ys = ap (λ ns. n ∷ ns) (done_names-append xs ys)
done_names-append (step_completed n ∷ xs) ys = ap (λ ns. n ∷ ns) (done_names-append xs ys)
done_names-append (step_failed n stage e ∷ xs) ys = done_names-append xs ys

module _ {D E : Type 0} where
  abbrev pub step_names : List (Step D E) → List String
  step_names [] = []
  step_names (s ∷ rest) = s.name ∷ step_names rest

  verified-DoneBy : (name : String) (r : Option E × D) → DoneBy name (verified name r)
  unfolding DoneBy
  verified-DoneBy name (some e, d) = refl
  verified-DoneBy name (none, d) = refl

  then_verify-DoneBy : (s : Step D E) (r : Option E × D) → DoneBy s.name (then_verify s r)
  unfolding DoneBy
  then_verify-DoneBy s (some e, d) = refl
  then_verify-DoneBy s (none, d) = verified-DoneBy s.name _

  then_act-DoneBy : (s : Step D E) (d : D) → DoneBy s.name (then_act s d)
  then_act-DoneBy s d = then_verify-DoneBy s (elim s.act [ none ↦ (none, d) | some act ↦ act d ])

  unless_done-DoneBy : (s : Step D E) (r : Checked E × D) → DoneBy s.name (unless_done s r)
  unfolding DoneBy
  unless_done-DoneBy s (unanswered e, d) = refl
  unless_done-DoneBy s (answered true, d) = refl
  unless_done-DoneBy s (answered false, d) = then_act-DoneBy s d

  announced-DoneBy :
      (name : String) (r : Ended D E) → DoneBy name r → DoneBy name (announced name r)
  unfolding DoneBy
  announced-DoneBy name (d, reports, none) h = h
  announced-DoneBy name (d, reports, some (stage, e)) h = h

  run_step-DoneBy : (d : D) (s : Step D E) → DoneBy s.name (run_step d s)
  unfolding run_step
  run_step-DoneBy d s = announced-DoneBy s.name (begun s d) (elim (Option-cases s.check) [
    | inl unchecked ↦ rw unchecked (then_act-DoneBy s d)
    | inr (check, checked) ↦ rw checked (unless_done-DoneBy s (check d))
  ])

  -- A run stopped with the names of its steps split into those done and those left.
  unfoldable pub Split : List String → Stopped D E → Type 0
  Split names (d, reports, failure) =
      (rest : List String) × (names ≡ done_names reports ++ rest) × Left failure rest

  followed-Split :
      (name : String) (names : List String) (r : Ended D E) (next : D → Stopped D E)
      → DoneBy name r
      → ((d : D) → Split names (next d))
      → Split (name ∷ names) (followed name r next)
  unfolding Split DoneBy Left
  followed-Split name names (d, reports, some (stage, e)) next h k = (
    name ∷ names,
    rw (done_names-append reports (step_failed name stage e ∷ []), h) refl,
    (names, refl),
  )
  followed-Split name names (d, reports, none) next h k =
      let (rest, split, left) = k d in
      (rest, rw (done_names-append reports (next d).1, h) (ap (λ ns. name ∷ ns) split), left)

  -- The steps that a run reports as done, whether skipped or completed, are the first steps of the
  -- list, each once and in order; all of them when the run succeeds, and otherwise all before the
  -- step that failed, or before the one that a cancelled context kept from starting.
  pub run-Split :
      (cancelled : D → Option E) (steps : List (Step D E)) (d : D)
      → Split (step_names steps) (run cancelled steps d)
  unfolding run Split Left
  run-Split cancelled [] d = ([], refl, refl)
  run-Split cancelled (s ∷ steps) d = elim (Option-cases (cancelled d)) [
    | inl going ↦
        rw (going, run)
          (followed-Split s.name (step_names steps) (run_step d s) (λ d'. run cancelled steps d')
            (run_step-DoneBy d s) (λ d'. run-Split cancelled steps d'))
    | inr (e, gone) ↦
        rw (gone, run) (s.name ∷ step_names steps, refl, (s.name, step_names steps, refl))
  ]
