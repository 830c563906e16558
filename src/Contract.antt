-- ===== src/Contract.antt =====
-- The bodies of the MQTT messages shared with the cloud
-- (smart-home-agent/internal/contract/contract.go). Severities, statuses and phases are the
-- constants of the source as data types; an omitted field is an empty text or `none`. Time stamps
-- are texts; the JSON encoding is a parameter where a body is published.
pub mod Topics
use smart_home_edge.Prelude.{String, Bool, Option, List, ℤ}
use smart_home_edge.Json.{Json}

pub data Severity : Type 0 where
  severity_info severity_warning severity_critical : Severity

pub data CommandAckStatus : Type 0 where
  acked failed : CommandAckStatus

pub data UpdateStatus : Type 0 where
  update_started update_ok update_failed : UpdateStatus

pub data PairingPhase : Type 0 where
  started device_found interviewing completed failed stopped : PairingPhase

-- `State` holds the two keys "state" and "attributes" and no other.
pub record StatePayload : Type 0 where
  pub state : String
  pub attributes : Json
  pub version : Option ℤ
  pub ts : String

pub record EventPayload : Type 0 where
  pub event_id : String
  pub severity : Severity
  pub device_uid : String
  pub ts : String

pub record CommandAckPayload : Type 0 where
  pub cmd_id : String
  pub status : CommandAckStatus

pub record CommandPayload : Type 0 where
  pub cmd_id : String
  pub device_uid : String
  pub action : String
  pub params : List (String × Json)
  pub ts : String
  pub ttl_sec : ℤ
  pub source : String

pub record DesiredShadowPayload : Type 0 where
  pub device_uid : String
  pub desired_version : ℤ
  pub state : List (String × Json)

pub record InventoryEntity : Type 0 where
  pub entity_id : String
  pub domain : String
  pub name : String
  pub area : String
  pub ha_device_id : String
  pub ha_device_name : String
  pub device_class : String
  pub unit_of_measurement : String

pub record InventoryPayload : Type 0 where
  pub hash : String
  pub entities : List InventoryEntity
  pub ts : String

pub record ConfigEntityMapEntry : Type 0 where
  pub device_uid : String
  pub entity_id : String

pub record ConfigPayload : Type 0 where
  pub claimed : Bool
  pub config_version : ℤ
  pub entity_map : List ConfigEntityMapEntry
  pub ts : String

pub record VersionsPayload : Type 0 where
  pub agent_version : String
  pub ha_version : String
  pub os_version : String
  pub ts : String

pub record UpdatePayload : Type 0 where
  pub update_id : String
  pub ts : String

pub record UpdateStatusPayload : Type 0 where
  pub update_id : String
  pub status : UpdateStatus
  pub error : String
  pub ts : String

pub record PairingDevice : Type 0 where
  pub ieee : String
  pub friendly_name : String
  pub model : String
  pub vendor : String

pub record PairingEventPayload : Type 0 where
  pub session_id : String
  pub phase : PairingPhase
  pub expires_at : String
  pub device : Option PairingDevice
  pub reason : String
  pub ts : String
