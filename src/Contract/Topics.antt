-- ===== src/Contract/Topics.antt =====
-- The MQTT topics of a gateway (smart-home-agent/internal/contract/contract.go).
pub mod Separation
use Prim.Native.String.{String, ◌++◌}

abbrev pub root : String
root = "homes"

unfoldable pub state_topic : String → String → String
state_topic uid device = root ++ "/" ++ uid ++ "/state/" ++ device

unfoldable pub event_topic : String → String → String
event_topic uid kind = root ++ "/" ++ uid ++ "/event/" ++ kind

unfoldable pub inventory_topic : String → String
inventory_topic uid = root ++ "/" ++ uid ++ "/inventory"

unfoldable pub command_ack_topic : String → String
command_ack_topic uid = root ++ "/" ++ uid ++ "/cmd/ack"

unfoldable pub availability_topic : String → String
availability_topic uid = root ++ "/" ++ uid ++ "/availability"

unfoldable pub command_topic : String → String
command_topic uid = root ++ "/" ++ uid ++ "/cmd"

unfoldable pub desired_shadow_topic : String → String → String
desired_shadow_topic uid device = root ++ "/" ++ uid ++ "/shadow/desired/" ++ device

unfoldable pub desired_shadow_filter : String → String
desired_shadow_filter uid = root ++ "/" ++ uid ++ "/shadow/desired/#"

unfoldable pub config_topic : String → String
config_topic uid = root ++ "/" ++ uid ++ "/config"

unfoldable pub versions_topic : String → String
versions_topic uid = root ++ "/" ++ uid ++ "/versions"

unfoldable pub update_topic : String → String
update_topic uid = root ++ "/" ++ uid ++ "/update"

unfoldable pub update_status_topic : String → String
update_status_topic uid = root ++ "/" ++ uid ++ "/update/status"

abbrev pub pairing_event_type : String
pairing_event_type = "pairing"
