-- ===== src/Agent/Inventory.antt =====
-- The inventory of Home Assistant's entities and the running versions, both retained
-- (`publishInventory` and `RepublishInventory`, smart-home-agent/internal/agent/config_state.go and
-- webui.go; `publishVersions` and `osVersion`, update.go).
use smart_home_edge.Prelude.{String, true, not, ◌||◌, Option, none, some, List, ◌==◌, if◌then◌else◌}
use smart_home_edge.Contract.{InventoryEntity, InventoryPayload}
use smart_home_edge.Contract.Topics.{inventory_topic, versions_topic}
use smart_home_edge.Agent.{inventory, versions, listed, Agent, World, did}
use smart_home_edge.Agent.Uplink.{message, send, publish_uplink}

abbrev pub inventory_payload : World → Agent → List InventoryEntity → InventoryPayload
inventory_payload w a entities = record {
  hash = w.digest entities;
  entities = entities;
  ts = w.timestamp a.trace;
}

-- A refused publish resets the hash, so that the next refresh tries again.
abbrev pub publish_encoded : World → Agent → Option String → Agent
publish_encoded w a none = a
publish_encoded w a (some raw) =
    let p = message (inventory_topic a.uid) raw true in
    let sent = send w a p in
    if w.publish_ok a.trace p then sent else record sent { inventory_hash = "" }

abbrev pub publish_listed : World → Agent → Option (List InventoryEntity) → Agent
publish_listed w a none = a
publish_listed w a (some entities) =
    let payload = inventory_payload w a entities in
    if payload.hash == a.inventory_hash
    then a
    else publish_encoded w (record a { inventory_hash = payload.hash })
        (w.marshal (inventory payload))

unfoldable pub publish_inventory : World → Agent → Agent
unfolding send
publish_inventory w a =
    if not a.claimed || not (w.connected a.trace)
    then a
    else publish_listed w (did listed a) (w.entity_inventory a.trace)

pub data Refusal : Type 0 where
  not_claimed not_connected : Refusal

-- The panel's button: forget the hash first, so that an unchanged inventory is sent again.
unfoldable pub republish_inventory : World → Agent → Agent × Option Refusal
unfolding publish_inventory
republish_inventory w a =
    if not a.claimed
    then (a, some not_claimed)
    else if not (w.connected a.trace)
    then (a, some not_connected)
    else (publish_inventory w (record a { inventory_hash = "" }), none)

abbrev pub os_version : World → Agent → String
os_version w a = elim (w.os_info a.trace) [ none ↦ "" | some v ↦ v ]

unfoldable pub publish_versions : World → Agent → Agent
unfolding publish_uplink
publish_versions w a =
    if not a.claimed || not (w.connected a.trace)
    then a
    else publish_uplink w a (versions_topic a.uid)
        (versions (record {
          agent_version = w.agent_version;
          ha_version = w.ha_version a.trace;
          os_version = os_version w a;
          ts = w.timestamp a.trace;
        }))
        true
