-- ===== src/Pairing/Z2m.antt =====
-- The Zigbee2MQTT backend (smart-home-agent/internal/pairing/z2m.go). A bridge event is given
-- decoded, `none` for a message that is no JSON of its shape; whether the local broker takes a
-- message is an argument.
use Prim.Native.String.{◌++◌}
use smart_home_edge.Prelude.{String, Bool, Option, none, some, ℤ, pos, ◌==◌, if◌then◌else◌}
use smart_home_edge.Contract.{PairingPhase}
use smart_home_edge.Pairing.{Event}

pub record Definition : Type 0 where
  pub model : String
  pub vendor : String

pub record BridgeEvent : Type 0 where
  pub kind : String
  pub friendly_name : String
  pub ieee_address : String
  pub status : String
  pub supported : Option Bool
  pub definition : Option Definition

abbrev pub new_z2m : String → String
new_z2m base = if base == "" then "zigbee2mqtt" else base

abbrev pub bridge_event_topic : String → String
bridge_event_topic base = base ++ "/bridge/event"

-- `{"time": seconds}` on the request topic: topic and body before encoding.
abbrev pub permit_join : String → ℤ → String × ℤ
permit_join base secs = (base ++ "/bridge/request/permit_join", secs)

abbrev pub start : String → ℤ → String × ℤ
start base secs = permit_join base secs

abbrev pub stop : String → String × ℤ
stop base = permit_join base (pos 0)

abbrev model_of : Option Definition → String
model_of none = ""
model_of (some d) = d.model

abbrev vendor_of : Option Definition → String
vendor_of none = ""
vendor_of (some d) = d.vendor

abbrev event_of : PairingPhase → String → BridgeEvent → Event
event_of phase reason be = record {
  phase = phase;
  device = some (record {
    ieee = be.ieee_address;
    friendly_name = be.friendly_name;
    model = model_of be.definition;
    vendor = vendor_of be.definition;
  });
  reason = reason;
  expires_at = none;
}

-- `none` for an event that pairing does not care about.
unfoldable pub map_bridge_event : Option BridgeEvent → Option Event
map_bridge_event none = none
map_bridge_event (some be) =
    if be.kind == "device_joined"
    then some (event_of PairingPhase.device_found "" be)
    else if be.kind == "device_interview"
    then (if be.status == "started"
        then some (event_of PairingPhase.interviewing "" be)
        else if be.status == "successful"
        then some (event_of PairingPhase.completed "" be)
        else if be.status == "failed"
        then some (event_of PairingPhase.failed "interview failed" be)
        else none)
    else none
