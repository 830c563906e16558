-- ===== src/Tests/Handlers.antt =====
-- The agent's handlers and the update pass in a small world.
use smart_home_edge.Prelude.{
  ◌≡◌, refl, String, true, false, none, some, List, [], ◌∷◌, ◌≤◌, arith, ℤ, pos, ◌≤ℤ◌, length,
  lookup, insert,
}
use smart_home_edge.EntityMap.{new, bind_all, bind, entity_for_device, domain_of}
use smart_home_edge.Translate.{translate_desired, translator, translate_light}
use smart_home_edge.Json.{str}
use smart_home_edge.Contract.{CommandPayload, DesiredShadowPayload, severity_info}
use smart_home_edge.Versions.{new_version_store}
use smart_home_edge.Versions
use smart_home_edge.Versions.Monotone.{AtMost}
use smart_home_edge.Pairing.{new_manager}
use smart_home_edge.Fleet.{Manifest}
use smart_home_edge.Supervisor.{
  Api, Error, Result, ok, answer, call, version_info, os_info, update_os_latest, versions_equal,
  normalize_version,
}
use smart_home_edge.Agent.{Payload, PersistedConfig, Agent, World}
use smart_home_edge.Agent.Uplink.{message, publish_uplink, report_device_state}
use smart_home_edge.Agent.Config.{new_agent, restore_config_state}
use smart_home_edge.Agent.Command.{handle_command, command_expired, call_service}
use smart_home_edge.Agent.Shadow.{handle_desired_shadow, apply_calls}
use smart_home_edge.Agent.Invariant.{IsSound}
use smart_home_edge.Agent.Invariant.Run.{
  Input, command, connected, pairing_timeout, update_task, run, run_monotone, run_bounded,
  new_agent-IsSound,
}
use smart_home_edge.Agent.Delivery.{Delivered, publish_uplink-Delivered, handle_command_twice}
use smart_home_edge.Agent.Convergence.{Overdue, desired_shadow_once, command_expired_iff}
use smart_home_edge.Prelude.{Bool, ℕ}
use smart_home_edge.Contract.{ConfigPayload}
use smart_home_edge.Agent.Config.{handle_config}
use smart_home_edge.Agent.Claiming.{Adopts, handle_config_order}
use smart_home_edge.Update.{
  Gateway, new_update_store, in_progress, update_all, resume_or_check_updates,
}
use smart_home_edge.Update.Phases.{phases, update_addons, update_each, update_os, update_available}
use smart_home_edge.Update.Resume.{
  left, restart-update_all, rebooted, reboot_resumes, restarts, triggered_last,
}

-- The broker is away; Home Assistant takes every call.
abbrev offline : World
offline = record {
  connected = λ t. false;
  publish_ok = λ t p. false;
  call_ok = λ t c. true;
  entity_state = λ t e. none;
  entity_inventory = λ t. none;
  ha_version = λ t. "2026.1";
  os_info = λ t. none;
  agent_version = "1.0";
  write_ok = λ t f. true;
  backend_ok = λ t d. true;
  now = λ t. pos 100000000000;
  timestamp = λ t. "2026-01-01T00:00:00Z";
  format_time = λ t. "2026-01-01T00:01:00Z";
  parse_rfc3339 = λ s. some (pos 0);
  parse_offset = λ s. none;
  marshal = λ p. some "{}";
  digest = λ es. "0";
  float_positive = λ s. true;
  float_int = λ s. pos 60;
}

abbrev claimed_file : PersistedConfig
claimed_file = record {
  claimed = true;
  config_version = pos 7;
  entity_map = record { device_uid = "d1"; entity_id = "light.desk" } ∷ [];
}

abbrev fresh_agent : Agent
fresh_agent = new_agent "u1" [] (new_version_store none) (some claimed_file) (some new_manager)

fresh_agent-IsSound : IsSound fresh_agent
fresh_agent-IsSound =
    new_agent-IsSound "u1" [] (new_version_store none) (some claimed_file) (some new_manager)

abbrev toggle : String → ℤ → CommandPayload
toggle id ttl = record {
  cmd_id = id;
  device_uid = "d1";
  action = "light.toggle";
  params = [];
  ts = "2026-01-01T00:00:00Z";
  ttl_sec = ttl;
  source = "user";
}

handle_command_twice_example :
    handle_command offline
      (handle_command offline fresh_agent (some (toggle "c1" (pos 0))))
      (some (toggle "c1" (pos 9)))
    ≡ handle_command offline fresh_agent (some (toggle "c1" (pos 0)))
handle_command_twice_example =
    handle_command_twice offline fresh_agent (toggle "c1" (pos 0)) (toggle "c1" (pos 9))
      fresh_agent-IsSound refl

publish_uplink-Delivered_example : Delivered fresh_agent (message "t" "{}" false) (
    publish_uplink offline fresh_agent "t"
      (Payload.event
        (record { event_id = "e1"; severity = severity_info; device_uid = "d1"; ts = "" }))
      false)
publish_uplink-Delivered_example =
    publish_uplink-Delivered offline fresh_agent "t"
      (Payload.event
        (record { event_id = "e1"; severity = severity_info; device_uid = "d1"; ts = "" }))
      false "{}" fresh_agent-IsSound refl

command_expired_iff_example :
    (command_expired offline fresh_agent (toggle "c1" (pos 60)) ≡ true
      → Overdue (pos 100000000000) (pos 60) (some (pos 0)))
    × (Overdue (pos 100000000000) (pos 60) (some (pos 0))
        → command_expired offline fresh_agent (toggle "c1" (pos 60)) ≡ true)
command_expired_iff_example =
    command_expired_iff offline fresh_agent (toggle "c1" (pos 60)) (omega arith)

abbrev desk_on : ℤ → DesiredShadowPayload
desk_on version = record {
  device_uid = "d1";
  desired_version = version;
  state = ("state", str "on") ∷ [];
}

desired_shadow_once_example :
    let b = handle_desired_shadow offline fresh_agent (some (desk_on (pos 4))) in
    handle_desired_shadow offline b (some (desk_on (pos 3))) ≡ report_device_state offline b "d1"
unfolding new_agent restore_config_state new bind_all bind entity_for_device lookup insert
    translate_desired translator translate_light apply_calls call_service domain_of
desired_shadow_once_example =
    desired_shadow_once offline fresh_agent (desk_on (pos 4)) refl refl refl (desk_on (pos 3)) refl
      refl

-- Everything is current but the OS.
abbrev old_os : Api
old_os = record {
  reply = λ l r. answer "{}";
  decode_repositories = λ s. some [];
  decode_store = λ s. some [];
  decode_addon = λ s. none;
  decode_version = λ s. some (record { version = "1"; latest = "2" });
  trim_space = λ s. s;
}

abbrev no_addons : Result Manifest
no_addons = ok (record { addon_repository = "r"; addons = [] })

abbrev gateway : Gateway
gateway = record {
  supervised = true;
  agent = fresh_agent;
  store = new_update_store none;
  log = [];
  updating = false;
  last_auto_check = none;
}

abbrev no_text : Error → String
no_text e = ""

abbrev inputs : List Input
inputs =
    command (some (toggle "c1" (pos 0)))
    ∷ connected
    ∷ command (some (toggle "c1" (pos 0)))
    ∷ pairing_timeout "s1"
    ∷ update_task no_addons "u7"
    ∷ []

run_bounded_example :
    let a = (run offline old_os no_text gateway inputs).agent in
    (a.panicked ≡ false) × (length a.buffer.items ≤ 512) × (length a.dedupe.order ≤ 1024)
run_bounded_example =
    run_bounded offline old_os no_text gateway "u1" [] (new_version_store none) (some claimed_file)
      (some new_manager) inputs refl

run_monotone_example :
    AtMost
      (Versions.get fresh_agent.versions "d1")
      (Versions.get (run offline old_os no_text gateway inputs).agent.versions "d1")
    × (fresh_agent.config_version
        ≤ℤ (run offline old_os no_text gateway inputs).agent.config_version)
run_monotone_example = run_monotone offline old_os no_text gateway inputs "d1"

restart-update_all_example :
    in_progress
      (new_update_store (update_all offline old_os no_text no_addons gateway "up1").store.disk)
    ≡ left "up1" (phases old_os no_addons gateway.log).0
restart-update_all_example =
    restart-update_all offline old_os no_text (λ t. refl) no_addons gateway "up1" refl

triggered_last_example : restarts (phases old_os no_addons []).1 ≡ true
unfolding phases update_addons update_each update_os update_available versions_equal
    normalize_version os_info version_info update_os_latest call
triggered_last_example = triggered_last old_os no_addons [] refl

reboot_resumes_example :
    (resume_or_check_updates offline
      (rebooted (update_all offline old_os no_text no_addons gateway "up1") fresh_agent)).1
    ≡ some "up1"
unfolding phases update_addons update_each update_os update_available versions_equal
    normalize_version os_info version_info update_os_latest call
reboot_resumes_example =
    reboot_resumes offline old_os no_text (λ t. refl) no_addons gateway "up1" fresh_agent refl refl

abbrev config_doc : Bool → ℕ → ConfigPayload
config_doc claimed version = record {
  claimed = claimed;
  config_version = pos version;
  entity_map = [];
  ts = "";
}

handle_config_order_example :
    Adopts (config_doc false 9) (
      handle_config offline
        (handle_config offline fresh_agent (some (config_doc true 8)))
        (some (config_doc false 9)))
    × Adopts (config_doc false 9) (
        handle_config offline
          (handle_config offline fresh_agent (some (config_doc false 9)))
          (some (config_doc true 8)))
unfolding new_agent restore_config_state
handle_config_order_example =
    handle_config_order offline fresh_agent (config_doc true 8) (config_doc false 9) refl refl
