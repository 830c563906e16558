-- ===== src/Steps/Agent.antt =====
-- The steps that configure and start the agent and wait for it to provision
-- (smart-home-agent/internal/onboard/steps.go: `configureAgentStep`, `startAgentStep`,
-- `awaitProvisionStep`).
use smart_home_edge.Prelude.{
  ℕ, zero, suc, ◌+◌, String, Bool, true, false, not, Option, none, some, ltb, ◌==◌, if◌then◌else◌,
}
use smart_home_edge.Onboard.{Step}
use smart_home_edge.Steps.{
  Problem, agent_not_persisted, agent_not_started, not_provisioned, not_provisioned_after, no_uid,
  out_of_rounds, Answer, ok, err, Host, State, ClaimInfo,
}
use smart_home_edge.Steps.Actions.{
  Action, pure, raise, gets, modify, ask, attempt, raise_if, ◌>>=◌, ◌>>◌, poll, step,
}
use smart_home_edge.Steps.Options.{options_satisfied}
use smart_home_edge.Steps.Addons.{resolve_agent_slug, is_started}

module _ {D : Type 0} (host : Host D) where
  abbrev pub the_slug : Action D String
  the_slug = gets (λ s. s.agent_slug)

  -- Whether the agent's options are the wanted ones.
  unfoldable pub options_hold : Action D Bool
  unfolding options_satisfied
  options_hold = do
    slug ← the_slug
    info ← ask (host.api.addon_info slug)
    wanted ← gets (λ s. s.agent_options)
    pure (options_satisfied host info.options wanted)

  unfoldable pub configure_check : Action D Bool
  unfolding resolve_agent_slug options_hold
  configure_check = do resolve_agent_slug host; options_hold

  -- Options are loaded at start only, so a running agent is restarted.
  unfoldable pub configure_act : Action D (Unit {0})
  unfolding resolve_agent_slug
  configure_act = do
    resolve_agent_slug host
    slug ← the_slug
    wanted ← gets (λ s. s.agent_options)
    ask (host.api.set_addon_options slug wanted)
    info ← ask (host.api.addon_info slug)
    elim (info.state == "started") [ true ↦ ask (host.api.restart_addon slug) | false ↦ pure tt ]

  unfoldable pub configure_verify : Action D (Unit {0})
  unfolding options_hold
  configure_verify = do held ← options_hold; raise_if (not held) agent_not_persisted

  unfoldable pub configure_agent_step : Step (State D) Problem
  unfolding configure_check configure_act configure_verify
  configure_agent_step = step "configure-agent" configure_check configure_act configure_verify

  abbrev pub agent_is_started : Action D Bool
  agent_is_started = the_slug >>= is_started host

  unfoldable pub start_check : Action D Bool
  unfolding resolve_agent_slug is_started
  start_check = do resolve_agent_slug host; agent_is_started

  unfoldable pub start_act : Action D (Unit {0})
  start_act = do slug ← the_slug; ask (host.api.start_addon slug)

  unfoldable pub start_verify : Action D (Unit {0})
  unfolding poll is_started
  start_verify = poll host 15 agent_is_started agent_not_started

  unfoldable pub start_agent_step : Step (State D) Problem
  unfolding start_check start_act start_verify
  start_agent_step = step "start-agent" start_check start_act start_verify

  abbrev pub ask_claim : Action D ClaimInfo
  ask_claim = do slug ← the_slug; ask (host.api.claim_info slug)

  abbrev pub captured : ClaimInfo → Action D (Unit {0})
  captured info = modify (λ s. record s { claim = info })

  unfoldable pub await_check : Action D Bool
  unfolding resolve_agent_slug
  await_check = do
    resolve_agent_slug host
    info ← ask_claim
    elim (info.uid == "") [ true ↦ pure false | false ↦ (captured info >> pure true) ]

  abbrev pub has_uid : Answer ClaimInfo → Option ClaimInfo
  has_uid (ok info) = if info.uid == "" then none else some info
  has_uid (err e) = none

  abbrev pub late_problem : Answer ClaimInfo → Problem
  late_problem (ok info) = not_provisioned
  late_problem (err e) = not_provisioned_after e

  abbrev pub heard :
      (deadline : ℕ)
      → Action D (Unit {0})
      → Answer ClaimInfo
      → Option ClaimInfo
      → Action D (Unit {0})
  heard deadline next r (some info) = captured info
  heard deadline next r none = do
    now ← gets (λ s. host.now s.client)
    elim (ltb deadline now) [
      | true ↦ raise (late_problem r)
      | false ↦ (ask (host.sleep 3000000000) >> next)
    ]

  -- Ask, give up after the deadline, and otherwise sleep three seconds and go round.
  unfoldable pub await_until : (rounds deadline : ℕ) → Action D (Unit {0})
  await_until zero deadline = raise out_of_rounds
  await_until (suc rounds) deadline = do
    r ← attempt ask_claim
    heard deadline (await_until rounds deadline) r (has_uid r)

  -- Each round but the last sleeps, so there are no more rounds than nanoseconds to wait, and two.
  unfoldable pub await_act : Action D (Unit {0})
  unfolding await_until
  await_act = do
    now ← gets (λ s. host.now s.client)
    wait ← gets (λ s. s.timeouts.wait_provision)
    await_until (wait + 2) (now + wait)

  unfoldable pub await_verify : Action D (Unit {0})
  await_verify = do claim ← gets (λ s. s.claim); raise_if (claim.uid == "") no_uid

  unfoldable pub await_provision_step : Step (State D) Problem
  unfolding await_check await_act await_verify
  await_provision_step = step "await-provision" await_check await_act await_verify
