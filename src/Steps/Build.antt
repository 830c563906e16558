-- ===== src/Steps/Build.antt =====
-- The onboarding steps in their order (smart-home-agent/internal/onboard/steps.go: `BuildSteps`).
use smart_home_edge.Prelude.{List, [], ◌∷◌}
use smart_home_edge.Onboard.{Step}
use smart_home_edge.Steps.{Problem, Host, State}
use smart_home_edge.Steps.Account.{connect_step, owner_and_token_step, addon_repository_step}
use smart_home_edge.Steps.Addons.{install_addons_step, start_broker_step}
use smart_home_edge.Steps.Radio.{configure_zigbee_step}
use smart_home_edge.Steps.Agent.{configure_agent_step, start_agent_step, await_provision_step}

unfoldable pub build_steps : {D : Type 0} → Host D → List (Step (State D) Problem)
unfolding connect_step owner_and_token_step addon_repository_step install_addons_step
    start_broker_step configure_zigbee_step configure_agent_step start_agent_step
    await_provision_step
build_steps host =
    connect_step host
    ∷ owner_and_token_step host
    ∷ addon_repository_step host
    ∷ install_addons_step host
    ∷ start_broker_step host
    ∷ configure_zigbee_step host
    ∷ configure_agent_step host
    ∷ start_agent_step host
    ∷ await_provision_step host
    ∷ []
