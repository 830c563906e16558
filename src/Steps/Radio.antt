-- ===== src/Steps/Radio.antt =====
-- The step that points Zigbee2MQTT at the coordinator
-- (smart-home-agent/internal/onboard/steps.go: `configureZigbeeStep`).
use smart_home_edge.Prelude.{
  String, Bool, true, false, not, ◌&&◌, Option, none, some, ◌==◌, if◌then◌else◌,
}
use smart_home_edge.Onboard.{Step}
use smart_home_edge.Fleet.{find}
use smart_home_edge.Supervisor.{AddonInfo}
use smart_home_edge.Steps.{
  Problem, no_zigbee_addon, zigbee_not_in_store, zigbee_unresolved, zigbee_not_persisted,
  zigbee_not_started, Host, State, ZigbeeConfig,
}
use smart_home_edge.Steps.Actions.{Action, pure, gets, ask, raise_if, ◌>>=◌, ◌>>◌, poll, step}
use smart_home_edge.Steps.Options.{is_configured, merged_zigbee_options, zigbee_serial_satisfied}
use smart_home_edge.Steps.Addons.{or_problem, zigbee_addon_match, is_started}

module _ {D : Type 0} (host : Host D) where
  unfoldable pub resolve_zigbee_slug : Action D (Option String)
  unfolding find
  resolve_zigbee_slug = do
    manifest ← gets (λ s. s.manifest)
    addon ← or_problem host no_zigbee_addon (find manifest zigbee_addon_match)
    ask (host.api.resolve_addon_slug addon)

  abbrev pub zigbee_config : Action D ZigbeeConfig
  zigbee_config = gets (λ s. s.zigbee)

  -- The options are looked at before the state.
  abbrev pub radio_ready : ZigbeeConfig → AddonInfo → Bool
  radio_ready z info = zigbee_serial_satisfied host info.options z && (info.state == "started")

  abbrev pub checked_radio : ZigbeeConfig → Option String → Action D Bool
  checked_radio z none = pure false
  checked_radio z (some slug) = do info ← ask (host.api.addon_info slug); pure (radio_ready z info)

  unfoldable pub zigbee_check : Action D Bool
  unfolding is_configured resolve_zigbee_slug zigbee_serial_satisfied
  zigbee_check = do
    z ← zigbee_config
    elim (is_configured host z) [
      | true ↦ (resolve_zigbee_slug >>= checked_radio z)
      | false ↦ pure true
    ]

  -- An add-on that runs already is restarted to load the options.
  abbrev pub brought_up : String → AddonInfo → Action D (Unit {0})
  brought_up slug info =
      if info.state == "started"
      then ask (host.api.restart_addon slug)
      else ask (host.api.start_addon slug)

  unfoldable pub zigbee_act : Action D (Unit {0})
  unfolding resolve_zigbee_slug merged_zigbee_options
  zigbee_act = do
    found ← resolve_zigbee_slug
    slug ← or_problem host zigbee_not_in_store found
    info ← ask (host.api.addon_info slug)
    z ← zigbee_config
    ask (host.api.set_addon_options slug (merged_zigbee_options host info.options z))
    brought_up slug info

  abbrev pub verified_radio : ZigbeeConfig → Action D (Unit {0})
  verified_radio z = do
    found ← resolve_zigbee_slug
    slug ← or_problem host zigbee_unresolved found
    info ← ask (host.api.addon_info slug)
    raise_if (not (zigbee_serial_satisfied host info.options z)) zigbee_not_persisted
    poll host 15 (is_started host slug) zigbee_not_started

  unfoldable pub zigbee_verify : Action D (Unit {0})
  unfolding is_configured resolve_zigbee_slug zigbee_serial_satisfied poll is_started
  zigbee_verify = do
    z ← zigbee_config
    elim (is_configured host z) [ true ↦ verified_radio z | false ↦ pure tt ]

  unfoldable pub configure_zigbee_step : Step (State D) Problem
  unfolding zigbee_check zigbee_act zigbee_verify
  configure_zigbee_step = step "configure-zigbee" zigbee_check zigbee_act zigbee_verify
