-- ===== src/Steps/Outcome.antt =====
-- What a whole onboarding run that succeeds leaves
-- (smart-home-agent/internal/onboard/engine.go, steps.go).
use mathlib.Core.List.{append-nil}
use smart_home_edge.Prelude.{
  ◌≡◌, refl, sym, ap, ◌∙◌, String, Bool, true, false, Option, none, some, List, [], ◌∷◌, ◌==◌, ◌++◌,
}
use smart_home_edge.Onboard.{
  Step, Ended, Stopped, aborted, run, run_step, announced, begun, unless_done, then_verify,
  verified, followed,
}
use smart_home_edge.Onboard.Order.{done_names, step_names, Left, Split, run-Split}
use smart_home_edge.Steps.{Problem, no_uid, Answer, ok, err, Host, State}
use smart_home_edge.Steps.Actions.{Action, pure, ask, outcome, failure, step, ◌>>◌}
use smart_home_edge.Steps.Agent.{
  captured, await_check, await_act, await_verify, await_provision_step,
}
use smart_home_edge.Steps.Addons.{resolve_agent_slug}
use smart_home_edge.Steps.Rules.{Holds, Anything, anything, Holds-after, Holds-unless, Holds-branch}
use smart_home_edge.Steps.Account.{connect_step, owner_and_token_step, addon_repository_step}
use smart_home_edge.Steps.Addons.{install_addons_step, start_broker_step}
use smart_home_edge.Steps.Radio.{configure_zigbee_step}
use smart_home_edge.Steps.Agent.{configure_agent_step, start_agent_step}
use smart_home_edge.Steps.Build.{build_steps}

-- The nine steps, in their order.
abbrev pub onboarding_names : List String
onboarding_names =
    "connect" ∷ "owner-and-token" ∷ "addon-repository" ∷ "install-addons" ∷ "start-broker"
    ∷ "configure-zigbee" ∷ "configure-agent" ∷ "start-agent" ∷ "await-provision" ∷ []

module _ {D : Type 0} where
  -- What holds where a step, or a run, has ended without an error.
  unfoldable pub Ends : (State D → Type 0) → Ended (State D) Problem → Type 0
  Ends Q (s, reports, none) = Q s
  Ends Q (s, reports, some failed) = Unit

  unfoldable pub Succeeds : (State D → Type 0) → Stopped (State D) Problem → Type 0
  Succeeds Q (s, reports, none) = Q s
  Succeeds Q (s, reports, some failed) = Unit

  -- A step leaves what its check and its verification establish.
  module _ (Q : State D → Type 0) (name : String) (check : Action D Bool)
      (act verify : Action D (Unit {0}))
      (checked : (s : State D) → Holds (λ b t. b ≡ true → Q t) (check s))
      (held : (s : State D) → Holds (λ _ t. Q t) (verify s)) where
    abbrev the_step : Step (State D) Problem
    the_step = step name check act verify

    verified_lem :
        (r : Answer (Unit {0}) × State D)
        → Holds (λ _ t. Q t) r
        → Ends Q (verified name (failure r))
    unfolding Ends
    verified_lem (ok _, s) h = h
    verified_lem (err e, s) h = tt

    acted_lem : (r : Answer (Unit {0}) × State D) → Ends Q (then_verify the_step (failure r))
    unfolding Ends
    acted_lem (ok _, s) = verified_lem (verify s) (held s)
    acted_lem (err e, s) = tt

    checked_lem :
        (r : Answer Bool × State D)
        → Holds (λ b t. b ≡ true → Q t) r
        → Ends Q (unless_done the_step (outcome r))
    unfolding Ends
    checked_lem (ok true, s) h = h refl
    checked_lem (ok false, s) h = acted_lem (act s)
    checked_lem (err e, s) h = tt

    announced_lem : (x : Ended (State D) Problem) → Ends Q x → Ends Q (announced name x)
    unfolding Ends
    announced_lem (s, reports, none) h = h
    announced_lem (s, reports, some failed) h = tt

    pub step-Ends : (s : State D) → Ends Q (run_step s the_step)
    unfolding run_step
    step-Ends s = announced_lem (begun the_step s) (checked_lem (check s) (checked s))

  module _ (Q : State D → Type 0) (cancelled : State D → Option Problem) where
    -- A run ends with its last step.
    followed_lem :
        (name : String) (x : Ended (State D) Problem) (rest : State D → Stopped (State D) Problem)
        → ((t : State D) → Succeeds Q (rest t))
        → Succeeds Q (followed name x rest)
    unfolding Succeeds
    followed_lem name (s, reports, none) rest h = of_rest (rest s) (h s)
      where
        of_rest :
            (r : Stopped (State D) Problem) → Succeeds Q r → Succeeds Q (r.0, reports ++ r.1, r.2)
        of_rest (t, more, none) k = k
        of_rest (t, more, some e) k = tt
    followed_lem name (s, reports, some (stage, e)) rest h = tt

    last_lem :
        (name : String) (x : Ended (State D) Problem)
        → Ends Q x
        → Succeeds Q (followed name x (λ t. (t, [], none)))
    unfolding Succeeds Ends
    last_lem name (s, reports, none) h = h
    last_lem name (s, reports, some (stage, e)) h = tt

    cancelled_or :
        (o : Option Problem) (s : State D) (next : Stopped (State D) Problem)
        → Succeeds Q next
        → Succeeds Q (elim o [ some e ↦ (s, [], some (aborted e)) | none ↦ next ])
    unfolding Succeeds
    cancelled_or (some e) s next h = tt
    cancelled_or none s next h = h

    EndsWith : List (Step (State D) Problem) → Type 0
    EndsWith [] = ⊥
    EndsWith (st ∷ []) = (s : State D) → Ends Q (run_step s st)
    EndsWith (st ∷ next ∷ rest) = EndsWith (next ∷ rest)

    run-Succeeds :
        (steps : List (Step (State D) Problem)) (s : State D)
        → EndsWith steps
        → Succeeds Q (run cancelled steps s)
    unfolding run EndsWith
    run-Succeeds [] s h = absurd h
    run-Succeeds (st ∷ []) s h =
        cancelled_or (cancelled s) s _ (last_lem st.name (run_step s st) (h s))
    run-Succeeds (st ∷ next ∷ rest) s h = cancelled_or (cancelled s) s _ (
        followed_lem st.name (run_step s st) (λ t. run cancelled (next ∷ rest) t)
          (λ t. run-Succeeds (next ∷ rest) t h))

-- The agent's identity is known.
abbrev pub Identified : {D : Type 0} → State D → Type 0
Identified s = (s.claim.uid == "") ≡ false

module _ {D : Type 0} (host : Host D) where
  await_check-Holds : (s : State D) → Holds (λ b t. b ≡ true → Identified t) (await_check host s)
  unfolding await_check
  await_check-Holds s =
      Holds-after (λ _ t. Anything t) (λ b t. b ≡ true → Identified t) (resolve_agent_slug host s) _
        (anything (resolve_agent_slug host s))
        (λ _ t _.
          Holds-after (λ _ u. Anything u) (λ b u. b ≡ true → Identified u)
            (ask (host.api.claim_info t.agent_slug) t) _
            (anything (ask (host.api.claim_info t.agent_slug) t))
            (λ info u _.
              Holds-branch (λ b v. b ≡ true → Identified v) (info.uid == "") (pure false)
                (captured host info >> pure true) u (λ _ h. absurd (cc h))
                (λ some_uid _. some_uid)))

  await_provision_step-Ends :
      (s : State D) → Ends Identified (run_step s (await_provision_step host))
  unfolding await_provision_step await_verify
  await_provision_step-Ends =
      step-Ends Identified "await-provision" (await_check host) (await_act host) (await_verify host)
        await_check-Holds
        (λ t. Holds-unless (λ _ u. Identified u) (t.claim.uid == "") no_uid t (λ given. given))

  ends_lem :
      (cancelled : State D → Option Problem) → EndsWith Identified cancelled (build_steps host)
  unfolding build_steps EndsWith
  ends_lem cancelled = await_provision_step-Ends

  names_lem : step_names (build_steps host) ≡ onboarding_names
  unfolding build_steps connect_step owner_and_token_step addon_repository_step install_addons_step
      start_broker_step configure_zigbee_step configure_agent_step start_agent_step
      await_provision_step
  names_lem = refl

  -- When a whole onboarding run ends without a failure, whatever the gateway answered on the way, its
  -- transcript has each of the nine steps as done, in their order, and the shared state holds an
  -- agent's identity that is not empty.
  pub run-Onboarded :
      (cancelled : State D → Option Problem) (s : State D)
      → (run cancelled (build_steps host) s).2 ≡ none
      → (done_names (run cancelled (build_steps host) s).1 ≡ onboarding_names)
        × Identified (run cancelled (build_steps host) s).0
  unfolding Split Left Succeeds
  run-Onboarded cancelled s succeeded =
      of_stopped (run cancelled (build_steps host) s) (run-Split cancelled (build_steps host) s)
        (run-Succeeds Identified cancelled (build_steps host) s (ends_lem cancelled)) succeeded
    where
      of_stopped :
          (r : Stopped (State D) Problem)
          → Split (step_names (build_steps host)) r
          → Succeeds Identified r
          → r.2 ≡ none
          → (done_names r.1 ≡ onboarding_names) × Identified r.0
      of_stopped (t, reports, some e) split h none_left = absurd (cc none_left)
      of_stopped (t, reports, none) (rest, same, nothing) h _ = (
        sym (append-nil (done_names reports))
            ∙ (ap (λ xs. done_names reports ++ xs) (sym nothing) ∙ (sym same ∙ names_lem)),
        h,
      )
