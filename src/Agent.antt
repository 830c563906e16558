-- ===== src/Agent.antt =====
-- The agent's state and what surrounds it (smart-home-agent/internal/agent/agent.go). An operation
-- takes the `World` and the state and returns the new state; every call that leaves the process
-- is recorded in the trace, newest first. What the outside answers may depend on all that
-- happened before, so the fields of `World` take the trace.
pub mod Uplink
pub mod Inventory
pub mod Config
pub mod Action
pub mod PairingCommand
pub mod Command
pub mod Shadow
pub mod Invariant
pub mod Delivery
pub mod Convergence
pub mod Claiming
use smart_home_edge.Prelude.{ℕ, String, Bool, Option, List, ◌∷◌, ℤ}
use smart_home_edge.Json.{Json}
use smart_home_edge.Contract.{
  StatePayload, EventPayload, CommandAckPayload, InventoryEntity, InventoryPayload,
  ConfigEntityMapEntry, VersionsPayload, UpdateStatusPayload, PairingEventPayload,
}
use smart_home_edge.EntityMap.{Map}
use smart_home_edge.Translate.{ServiceCall}
use smart_home_edge.Buffer.{Pending, UplinkBuffer}
use smart_home_edge.Dedupe.{CmdDedupe}
use smart_home_edge.Versions.{VersionStore}
use smart_home_edge.Pairing.{Manager}
use smart_home_edge.Pairing

-- The bodies that `json.Marshal` is given.
pub data Payload : Type 0 where
  state : StatePayload → Payload
  event : EventPayload → Payload
  ack : CommandAckPayload → Payload
  inventory : InventoryPayload → Payload
  versions : VersionsPayload → Payload
  update_status : UpdateStatusPayload → Payload
  pairing : PairingEventPayload → Payload

pub record HaState : Type 0 where
  pub state : String
  pub attributes : Json

pub record StateChange : Type 0 where
  pub entity_id : String
  pub state : String
  pub attributes : Json

-- Goroutines that a handler starts and does not wait for.
pub data Task : Type 0 where
  on_claimed on_unclaimed reconcile_reported_state resume_or_check_updates : Task

pub data Effect : Type 0 where
  published : Pending → (accepted : Bool) → Effect
  called : ServiceCall → (accepted : Bool) → Effect
  fetched : (entity_id : String) → Effect
  listed : Effect
  subscribed : (topic : String) → Effect
  unsubscribed : (first second : String) → Effect
  dismissed : Effect
  wrote : (file : String) → (accepted : Bool) → Effect
  spawned : Task → Effect
  paired : Pairing.Action → Effect

-- The on-disk shape of the last applied cloud config.
pub record PersistedConfig : Type 0 where
  pub claimed : Bool
  pub config_version : ℤ
  pub entity_map : List ConfigEntityMapEntry

pub record Agent : Type 0 where
  pub uid : String
  pub versions : VersionStore
  pub buffer : UplinkBuffer
  pub dedupe : CmdDedupe
  pub emap : Map
  pub claimed : Bool
  pub config_version : ℤ
  pub inventory_hash : String
  pub config_file : Option PersistedConfig
  -- nil when no local broker is reachable
  pub pairing : Option Manager
  -- a slice was indexed out of range
  pub panicked : Bool
  pub trace : List Effect

abbrev pub Trace : Type 0
Trace = List Effect

-- Home Assistant, the broker, the clock, the disk and the libraries.
pub record World : Type 0 where
  -- `a.broker != nil && a.broker.IsConnected()`
  pub connected : Trace → Bool
  pub publish_ok : Trace → Pending → Bool
  pub call_ok : Trace → ServiceCall → Bool
  pub entity_state : Trace → String → Option HaState
  pub entity_inventory : Trace → Option (List InventoryEntity)
  pub ha_version : Trace → String
  -- the OS version by the Supervisor; `none` without one, or when the call fails
  pub os_info : Trace → Option String
  pub agent_version : String
  pub write_ok : Trace → String → Bool
  pub backend_ok : Trace → ℤ → Bool
  -- nanoseconds, and the two text forms of a time
  pub now : Trace → ℤ
  pub timestamp : Trace → String
  pub format_time : ℤ → String
  pub parse_rfc3339 : String → Option ℤ
  pub parse_offset : String → Option ℤ
  -- `json.Marshal`; `none` is its error
  pub marshal : Payload → Option String
  -- the SHA-256 of the encoded inventory, in hex, or "" when it cannot be encoded
  pub digest : List InventoryEntity → String
  -- `v > 0` and `int(v)` on the float64 of a literal
  pub float_positive : String → Bool
  pub float_int : String → ℤ

abbrev pub uplink_buffer_limit : ℕ
uplink_buffer_limit = 512

abbrev pub cmd_dedupe_limit : ℕ
cmd_dedupe_limit = 1024

-- Record an effect.
abbrev pub did : Effect → Agent → Agent
did e a = record a { trace = e ∷ a.trace }
