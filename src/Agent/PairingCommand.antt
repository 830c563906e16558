-- ===== src/Agent/PairingCommand.antt =====
-- The gateway's pairing commands (`handlePairingCommand` of
-- smart-home-agent/internal/agent/agent.go) and the wiring of the pairing manager to the uplink.
use smart_home_edge.Prelude.{
  String, Option, none, some, List, [], ◌∷◌, ℤ, pos, lookup, ◌==◌, if◌then◌else◌,
}
use smart_home_edge.Json.{Json, null, bool, num, str, arr, obj, as_string}
use smart_home_edge.Contract.{CommandPayload, PairingPhase, acked, CommandAckStatus}
use smart_home_edge.Pairing
use smart_home_edge.Pairing.{
  Event, Manager, Outcome, ok, err_busy, err_backend, Action, emit, start, stop, timeout,
}
use smart_home_edge.Agent.{paired, Agent, World, did}
use smart_home_edge.Agent.Uplink.{ack_command, emit_pairing_event}

-- What a manager's method does, in order: its events go upstream.
unfoldable pub perform : World → Agent → List Action → Agent
perform w a [] = a
perform w a (emit session ev ∷ rest) = perform w (emit_pairing_event w a session ev) rest
perform w a (act ∷ rest) = perform w (did (paired act) a) rest

abbrev pub failed_event : String → Event
failed_event reason = record {
  phase = PairingPhase.failed;
  device = none;
  reason = reason;
  expires_at = none;
}

-- The event that tells the wizard why, and the failed ack.
unfoldable pub refuse_pairing : World → Agent → String → String → String → Agent
refuse_pairing w a session id reason =
    ack_command w (emit_pairing_event w a session (failed_event reason)) id CommandAckStatus.failed

-- A positive number of the parameters, or 120.
abbrev pub duration_of : World → Option Json → ℤ
duration_of w (some (num n)) = if w.float_positive n then w.float_int n else pos 120
duration_of w (some null) = pos 120
duration_of w (some (bool b)) = pos 120
duration_of w (some (str s)) = pos 120
duration_of w (some (arr xs)) = pos 120
duration_of w (some (obj fs)) = pos 120
duration_of w none = pos 120

abbrev pub started_with : World → Agent → String → String → Manager × Outcome × List Action → Agent
started_with w a session id (m, ok, acts) =
    ack_command w (perform w (record a { pairing = some m }) acts) id acked
started_with w a session id (m, err_busy, acts) =
    refuse_pairing w (perform w (record a { pairing = some m }) acts) session id
      "another pairing session is active"
started_with w a session id (m, err_backend, acts) =
    refuse_pairing w (perform w (record a { pairing = some m }) acts) session id
      "pairing start failed"

abbrev pub stopped_with : World → Agent → String → Manager × List Action → Agent
stopped_with w a id (m, acts) =
    ack_command w (perform w (record a { pairing = some m }) acts) id acked

abbrev pub pair : World → Agent → CommandPayload → String → Option Manager → Agent
pair w a cmd session none =
    refuse_pairing w a session cmd.cmd_id "pairing unavailable on this gateway"
pair w a cmd session (some m) =
    let duration = duration_of w (lookup "duration_sec" cmd.params) in
    if cmd.action == "pairing.start"
    then started_with w a session cmd.cmd_id
        (start (w.backend_ok a.trace duration) (w.now a.trace) m session duration)
    else if cmd.action == "pairing.stop"
    then stopped_with w a cmd.cmd_id (stop m session "user")
    else ack_command w a cmd.cmd_id CommandAckStatus.failed

unfoldable pub handle_pairing_command : World → Agent → CommandPayload → Agent
unfolding perform refuse_pairing start stop
handle_pairing_command w a cmd =
    let session = as_string (lookup "session_id" cmd.params) in
    if session == ""
    then ack_command w a cmd.cmd_id CommandAckStatus.failed
    else pair w a cmd session a.pairing

abbrev pub bridged : World → Agent → Event → Option Manager → Agent
bridged w a ev none = a
bridged w a ev (some m) =
    let (m', acts) = Pairing.handle_backend_event m ev in
    perform w (record a { pairing = some m' }) acts

-- The subscription to the backend's events.
unfoldable pub handle_bridge_event : World → Agent → Option Event → Agent
unfolding perform
handle_bridge_event w a none = a
handle_bridge_event w a (some ev) = bridged w a ev a.pairing

abbrev pub timed_out : World → Agent → String → Option Manager → Agent
timed_out w a session none = a
timed_out w a session (some m) =
    let (m', acts) = timeout m session in perform w (record a { pairing = some m' }) acts

-- The timer of a session runs out.
unfoldable pub handle_pairing_timeout : World → Agent → String → Agent
unfolding perform timeout
handle_pairing_timeout w a session = timed_out w a session a.pairing
