-- ===== src/Agent/Uplink.antt =====
-- Publishing upstream, with the offline buffer (`ackCommand`, `publishUplink`, `PublishEvent`,
-- `emitPairingEvent`, `reportDeviceState`, `handleStateChange`, `reconcileReportedState` of
-- smart-home-agent/internal/agent/agent.go).
use smart_home_edge.Prelude.{
  String, Bool, true, false, not, Option, none, some, List, [], ◌∷◌, ℤ, ◌==◌, if◌then◌else◌,
}
use smart_home_edge.Contract.{Severity, CommandAckStatus}
use smart_home_edge.Contract.Topics.{
  state_topic, event_topic, command_ack_topic, pairing_event_type,
}
use smart_home_edge.EntityMap.{entity_for_device, device_for_entity, devices}
use smart_home_edge.Buffer.{Pending, UplinkBuffer, push, drain}
use smart_home_edge.Versions.{get}
use smart_home_edge.Pairing
use smart_home_edge.Agent.{
  Payload, state, event, ack, pairing, HaState, StateChange, published, fetched, Agent, World, did,
}

-- `a.buffer.push(p)`.
abbrev pub stored : Agent → Option UplinkBuffer → Agent
stored a none = record a { panicked = true }
stored a (some b) = record a { buffer = b }

unfoldable pub hold : Agent → Pending → Agent
hold a p = stored a (push a.buffer p)

-- `a.broker.Publish(...)`, its error dropped.
unfoldable pub send : World → Agent → Pending → Agent
send w a p = did (published p (w.publish_ok a.trace p)) a

abbrev pub message : String → String → Bool → Pending
message topic raw retain = record { topic = topic; payload = raw; qos = 1; retain = retain }

-- Published when connected, and buffered when that fails or there is no connection.
unfoldable pub deliver : World → Agent → Pending → Agent
unfolding send hold
deliver w a p =
    if w.connected a.trace
    then (if w.publish_ok a.trace p then send w a p else hold (send w a p) p)
    else hold a p

abbrev pub encoded : World → Agent → String → Bool → Option String → Agent
encoded w a topic retain none = a
encoded w a topic retain (some raw) = deliver w a (message topic raw retain)

unfoldable pub publish_uplink : World → Agent → String → Payload → Bool → Agent
unfolding deliver
publish_uplink w a topic payload retain = encoded w a topic retain (w.marshal payload)

abbrev pub acknowledged : World → Agent → Option String → Agent
acknowledged w a none = a
acknowledged w a (some raw) =
    let p = message (command_ack_topic a.uid) raw false in
    if w.connected a.trace then send w a p else hold a p

-- Unlike an uplink, an ack that the broker refuses is not buffered.
unfoldable pub ack_command : World → Agent → String → CommandAckStatus → Agent
unfolding send hold
ack_command w a id status =
    acknowledged w a (w.marshal (ack (record { cmd_id = id; status = status })))

unfoldable pub publish_event : World → Agent → String → String → Severity → String → Agent
unfolding publish_uplink
publish_event w a kind id severity device =
    if not a.claimed
    then a
    else publish_uplink w a (event_topic a.uid kind)
        (event (record {
          event_id = id;
          severity = severity;
          device_uid = device;
          ts = w.timestamp a.trace;
        }))
        false

abbrev pub expiry : World → Option ℤ → String
expiry w none = ""
expiry w (some t) = w.format_time t

unfoldable pub emit_pairing_event : World → Agent → String → Pairing.Event → Agent
unfolding publish_uplink
emit_pairing_event w a session ev =
    publish_uplink w a (event_topic a.uid pairing_event_type)
      (pairing (record {
        session_id = session;
        phase = ev.phase;
        expires_at = expiry w ev.expires_at;
        device = ev.device;
        reason = ev.reason;
        ts = w.timestamp a.trace;
      }))
      false

-- The state report of a device, with the version last applied to it.
abbrev pub report : World → Agent → String → HaState → Payload
report w a device st = state (record {
  state = st.state;
  attributes = st.attributes;
  version = get a.versions device;
  ts = w.timestamp a.trace;
})

unfoldable pub handle_state_change : World → Agent → StateChange → Agent
unfolding publish_uplink
handle_state_change w a sc =
    let device = device_for_entity a.emap sc.entity_id in
    if not a.claimed
    then a
    else if device == ""
    then a
    else publish_uplink w a (state_topic a.uid device)
        (report w a device (record { state = sc.state; attributes = sc.attributes })) false

abbrev pub read_back : World → Agent → String → Option HaState → Agent
read_back w a device none = a
read_back w a device (some st) =
    publish_uplink w a (state_topic a.uid device) (report w a device st) false

unfoldable pub report_device_state : World → Agent → String → Agent
unfolding publish_uplink
report_device_state w a device =
    let entity = entity_for_device a.emap device in
    if entity == ""
    then a
    else read_back w (did (fetched entity) a) device (w.entity_state a.trace entity)

unfoldable pub report_all : World → Agent → List String → Agent
report_all w a [] = a
report_all w a (device ∷ rest) = report_all w (report_device_state w a device) rest

unfoldable pub reconcile_reported_state : World → Agent → Agent
unfolding report_all
reconcile_reported_state w a = report_all w a (devices a.emap)

-- Publish what was buffered; the errors are dropped.
unfoldable pub send_all : World → Agent → List Pending → Agent
send_all w a [] = a
send_all w a (p ∷ ps) = send_all w (send w a p) ps

unfoldable pub flush : World → Agent → Agent
unfolding send_all
flush w a = let (held, emptied) = drain a.buffer in send_all w (record a { buffer = emptied }) held
