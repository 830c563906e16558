-- ===== src/Agent/Config.antt =====
-- The retained config document: claim status and entity map
-- (smart-home-agent/internal/agent/config_state.go, and `activateClaimed`, `deactivateClaimed` and
-- `onBrokerConnect` of agent.go). A message is given decoded, `none` when it is not decoded.
use smart_home_edge.Prelude.{
  String, Bool, true, false, not, ◌&&◌, Option, none, some, List, [], ◌∷◌, ltb_ℤ, pos,
  if◌then◌else◌,
}
use smart_home_edge.Contract.{ConfigPayload, ConfigEntityMapEntry}
use smart_home_edge.Contract.Topics.{
  availability_topic, config_topic, command_topic, desired_shadow_filter, update_topic,
}
use smart_home_edge.EntityMap.{Entry}
use smart_home_edge.EntityMap
use smart_home_edge.Buffer.{Pending, new_uplink_buffer}
use smart_home_edge.Dedupe.{new_cmd_dedupe}
use smart_home_edge.Versions.{VersionStore}
use smart_home_edge.Pairing.{Manager}
use smart_home_edge.Agent.{
  PersistedConfig, subscribed, unsubscribed, dismissed, wrote, spawned, on_claimed, on_unclaimed,
  reconcile_reported_state, resume_or_check_updates, Agent, World, did, uplink_buffer_limit,
  cmd_dedupe_limit,
}
use smart_home_edge.Agent.Uplink.{message, send, flush}
use smart_home_edge.Agent.Inventory.{publish_inventory, publish_versions}

abbrev pub to_entries : List ConfigEntityMapEntry → List Entry
to_entries [] = []
to_entries (e ∷ es) = record { device_uid = e.device_uid; entity_id = e.entity_id } ∷ to_entries es

abbrev pub config_state_file : String
config_state_file = "gateway-config.json"

-- A failed write leaves the old file.
unfoldable pub save_config_state : World → Agent → ConfigPayload → Agent
save_config_state w a cfg =
    let written = w.write_ok a.trace config_state_file in
    let a' = did (wrote config_state_file written) a in
    if written
    then record a' {
      config_file = some (record {
        claimed = cfg.claimed;
        config_version = cfg.config_version;
        entity_map = cfg.entity_map;
      });
    }
    else a'

-- The map is replaced only by a stored map that is not empty.
abbrev pub with_stored_map : Agent → List ConfigEntityMapEntry → Agent
with_stored_map a [] = a
with_stored_map a (e ∷ es) = record a { emap = EntityMap.new (to_entries (e ∷ es)) }

abbrev pub restored : Agent → Option PersistedConfig → Agent
restored a none = a
restored a (some f) =
    with_stored_map (record a { claimed = f.claimed; config_version = f.config_version })
      f.entity_map

unfoldable pub restore_config_state : Agent → Agent
restore_config_state a = restored a a.config_file

-- `New`, from what the disk holds; `override` is the entity-map file of the config directory.
unfoldable pub new_agent :
    String → List Entry → VersionStore → Option PersistedConfig → Option Manager → Agent
unfolding restore_config_state EntityMap.load new_uplink_buffer new_cmd_dedupe
new_agent uid override stored file manager = restore_config_state (record {
  uid = uid;
  versions = stored;
  buffer = new_uplink_buffer uplink_buffer_limit;
  dedupe = new_cmd_dedupe cmd_dedupe_limit;
  emap = EntityMap.load override;
  claimed = false;
  config_version = pos 0;
  inventory_hash = "";
  config_file = file;
  pairing = manager;
  panicked = false;
  trace = [];
})

abbrev pub transition : Bool → Bool → Agent → Agent
transition was_claimed claimed a =
    if claimed && not was_claimed
    then did (spawned on_claimed) a
    else if not claimed && was_claimed
    then did (spawned on_unclaimed) a
    else a

abbrev pub adopted : Agent → ConfigPayload → Agent
adopted a cfg = record a {
  claimed = cfg.claimed;
  config_version = cfg.config_version;
  emap = EntityMap.new (to_entries cfg.entity_map);
}

abbrev pub apply_config : World → Agent → ConfigPayload → Agent
apply_config w a cfg =
    if ltb_ℤ cfg.config_version a.config_version
    then a
    else transition a.claimed cfg.claimed (save_config_state w (adopted a cfg) cfg)

unfoldable pub handle_config : World → Agent → Option ConfigPayload → Agent
unfolding save_config_state
handle_config w a none = a
handle_config w a (some cfg) = apply_config w a cfg

-- Subscription errors are logged only.
unfoldable pub activate_claimed : World → Agent → Agent
unfolding publish_inventory publish_versions
activate_claimed w a =
    let a₁ = did (subscribed (command_topic a.uid)) a in
    let a₂ = did (subscribed (desired_shadow_filter a.uid)) a₁ in
    let a₃ = did (subscribed (update_topic a.uid)) a₂ in
    did (spawned resume_or_check_updates)
      (did (spawned reconcile_reported_state) (publish_versions w (publish_inventory w a₃)))

unfoldable pub deactivate_claimed : Agent → Agent
deactivate_claimed a =
    let a' = did (unsubscribed (command_topic a.uid) (desired_shadow_filter a.uid)) a in
    record a' { inventory_hash = "" }

-- The goroutine that a claim starts.
unfoldable pub on_claimed_task : World → Agent → Agent
unfolding activate_claimed flush
on_claimed_task w a =
    let a' = did dismissed a in
    if not (w.connected a'.trace) then a' else flush w (activate_claimed w a')

-- What the goroutine that an unclaim starts does to the agent.
unfoldable pub on_unclaimed_task : World → Agent → Agent
unfolding deactivate_claimed
on_unclaimed_task w a = if w.connected a.trace then deactivate_claimed a else a

-- `contract.StatusOnline`, retained.
abbrev pub online : Agent → Pending
online a = message (availability_topic a.uid) "online" true

unfoldable pub on_broker_connect : World → Agent → Agent
unfolding send activate_claimed flush
on_broker_connect w a =
    let a' = did (subscribed (config_topic a.uid)) (send w a (online a)) in
    flush w (if a'.claimed then activate_claimed w a' else a')
