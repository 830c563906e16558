-- ===== src/Steps/Addons.antt =====
-- The steps that install the add-ons and start the broker
-- (smart-home-agent/internal/onboard/steps.go: `installAddonsStep`, `startBrokerStep` and their
-- helpers).
use smart_home_edge.Prelude.{
  ℕ, String, Bool, true, false, not, ◌&&◌, Option, none, some, List, [], ◌∷◌, is_some, ◌==◌,
  if◌then◌else◌,
}
use smart_home_edge.Onboard.{Step}
use smart_home_edge.Fleet.{Addon, Manifest, find}
use smart_home_edge.Fleet
use smart_home_edge.Steps.{
  Problem, not_in_store, not_installed, installing, no_local_agent, no_agent_addon,
  agent_not_in_store, broker_not_installed, broker_not_started, Answer, ok, err, Host, State,
  is_agent_addon, local_agent_slug,
}
use smart_home_edge.Steps.Actions.{
  Action, pure, raise, gets, modify, ask, attempt, raise_if, ◌>>=◌, ◌>>◌, poll, step,
}

abbrev pub zigbee_addon_match : String
zigbee_addon_match = "zigbee2mqtt"

abbrev pub broker_addon_match : String
broker_addon_match = "mosquitto"

abbrev pub install_timeout : ℕ
install_timeout = 1200000000000

module _ {D : Type 0} (host : Host D) where
  abbrev pub or_problem : {A : Type 0} → Problem → Option A → Action D A
  or_problem e none = raise e
  or_problem e (some a) = pure a

  abbrev pub keep_slug : String → Action D (Unit {0})
  keep_slug slug = modify (λ s. record s { agent_slug = slug })

  abbrev pub resolve_from_store : Action D (Unit {0})
  resolve_from_store = do
    manifest ← gets (λ s. s.manifest)
    agent ← or_problem no_agent_addon (Fleet.agent manifest)
    found ← ask (host.api.resolve_addon_slug agent)
    slug ← or_problem agent_not_in_store found
    keep_slug slug

  unfoldable pub resolve_agent_slug : Action D (Unit {0})
  unfolding Fleet.agent
  resolve_agent_slug s =
      if not (s.agent_slug == "")
      then pure tt s
      else if s.dev
      then keep_slug local_agent_slug s
      else resolve_from_store s

  abbrev pub is_local : Addon → Action D Bool
  is_local a = gets (λ s. is_agent_addon a && s.dev)

  abbrev pub installed_at : Option String → Action D Bool
  installed_at none = pure false
  installed_at (some slug) = do info ← ask (host.api.addon_info slug); pure info.installed

  -- An add-on that is not in the store counts as not installed.
  unfoldable pub addon_installed : Addon → Action D Bool
  unfolding is_agent_addon
  addon_installed a = do
    here ← is_local a
    elim here [
      | true ↦ installed_at (some local_agent_slug)
      | false ↦ (ask (host.api.resolve_addon_slug a) >>= installed_at)
    ]

  abbrev pub named_install : String → Answer (Unit {0}) → Action D (Unit {0})
  named_install name (ok _) = pure tt
  named_install name (err e) = raise (installing name e)

  unfoldable pub install_store_addon : Addon → Action D (Unit {0})
  install_store_addon a = do
    found ← ask (host.api.resolve_addon_slug a)
    slug ← or_problem (not_in_store a.name) found
    info ← ask (host.api.addon_info slug)
    elim info.installed [
      | true ↦ pure tt
      | false ↦
          (attempt (ask (host.api.install_addon install_timeout slug)) >>= named_install a.name)
    ]

  unfoldable pub require_local_agent : Action D (Unit {0})
  require_local_agent = do
    info ← ask (host.api.addon_info local_agent_slug)
    raise_if (not info.installed) no_local_agent

  abbrev pub all_installed : List Addon → Action D Bool
  all_installed [] = pure true
  all_installed (a ∷ rest) = do
    installed ← addon_installed a
    elim installed [ true ↦ all_installed rest | false ↦ pure false ]

  unfoldable pub install_check : Action D Bool
  unfolding resolve_agent_slug addon_installed
  install_check = do
    resolve_agent_slug
    manifest ← gets (λ s. s.manifest)
    all_installed manifest.addons

  abbrev pub install_one : Addon → Action D (Unit {0})
  install_one a = do
    here ← is_local a
    elim here [ true ↦ require_local_agent | false ↦ install_store_addon a ]

  abbrev pub install_each : List Addon → Action D (Unit {0})
  install_each [] = pure tt
  install_each (a ∷ rest) = install_one a >> install_each rest

  unfoldable pub install_act : Action D (Unit {0})
  unfolding install_store_addon require_local_agent is_agent_addon
  install_act = do manifest ← gets (λ s. s.manifest); install_each manifest.addons

  abbrev pub verify_each : List Addon → Action D (Unit {0})
  verify_each [] = pure tt
  verify_each (a ∷ rest) = do
    installed ← addon_installed a
    raise_if (not installed) (not_installed a.name)
    verify_each rest

  unfoldable pub install_verify : Action D (Unit {0})
  unfolding addon_installed
  install_verify = do manifest ← gets (λ s. s.manifest); verify_each manifest.addons

  unfoldable pub install_addons_step : Step (State D) Problem
  unfolding install_check install_act install_verify
  install_addons_step = step "install-addons" install_check install_act install_verify

  -- `none` where the manifest has no broker, or where the store does not know it yet.
  abbrev pub resolved_broker : Option Addon → Action D (Option String)
  resolved_broker none = pure none
  resolved_broker (some a) = ask (host.api.resolve_addon_slug a)

  abbrev pub broker_addon : Action D (Option Addon)
  broker_addon = gets (λ s. find s.manifest broker_addon_match)

  unfoldable pub resolve_broker_slug : Action D (Option String)
  unfolding find
  resolve_broker_slug = broker_addon >>= resolved_broker

  unfoldable pub is_started : String → Action D Bool
  is_started slug = do info ← ask (host.api.addon_info slug); pure (info.state == "started")

  unfoldable pub broker_check : Action D Bool
  unfolding resolve_broker_slug is_started find
  broker_check = do
    slug ← resolve_broker_slug
    elim slug [
      | some found ↦ is_started found
      | none ↦ (do addon ← broker_addon; pure (not (is_some addon)))
    ]

  unfoldable pub broker_act : Action D (Unit {0})
  unfolding resolve_broker_slug find
  broker_act = do
    slug ← resolve_broker_slug
    elim slug [
      | some found ↦ ask (host.api.start_addon found)
      | none ↦ (do addon ← broker_addon; raise_if (is_some addon) broker_not_installed)
    ]

  unfoldable pub broker_verify : Action D (Unit {0})
  unfolding resolve_broker_slug poll is_started
  broker_verify = do
    slug ← resolve_broker_slug
    elim slug [ some found ↦ poll host 15 (is_started found) broker_not_started | none ↦ pure tt ]

  unfoldable pub start_broker_step : Step (State D) Problem
  unfolding broker_check broker_act broker_verify
  start_broker_step = step "start-broker" broker_check broker_act broker_verify
