-- ===== src/Pairing.antt =====
-- One device-pairing session at a time (smart-home-agent/internal/pairing/pairing.go). A method
-- returns the new manager and what it did, in order; whether the backend's call succeeds and the
-- clock are arguments.
pub mod Sessions
pub mod Z2m
use smart_home_edge.Prelude.{
  String, Bool, true, false, not, ◌||◌, Option, none, some, List, [], ◌∷◌, ℤ, ◌+ℤ◌, seconds, ◌==◌,
  if◌then◌else◌,
}
use smart_home_edge.Contract.{PairingPhase, PairingDevice}

-- A zero `ExpiresAt` is `none`; times are in nanoseconds.
pub record Event : Type 0 where
  pub phase : PairingPhase
  pub device : Option PairingDevice
  pub reason : String
  pub expires_at : Option ℤ

-- The session whose timeout is armed; `timeoutFor` is the source's own, a second for each second.
pub record Manager : Type 0 where
  pub active_id : String
  pub timer : Option String

pub data Action : Type 0 where
  backend_start : ℤ → Action
  backend_stop : Action
  arm : String → ℤ → Action
  disarm : Action
  emit : String → Event → Action

pub data Outcome : Type 0 where
  ok err_busy err_backend : Outcome

abbrev pub new_manager : Manager
new_manager = record { active_id = ""; timer = none }

unfoldable pub start : Bool → ℤ → Manager → String → ℤ → Manager × Outcome × List Action
start started now m session duration =
    if not (m.active_id == "")
    then (m, err_busy, [])
    else if not started
    then (m, err_backend, backend_start duration ∷ [])
    else (
      record { active_id = session; timer = some session },
      ok,
      backend_start duration
          ∷ arm session (seconds duration)
          ∷ emit session (record {
            phase = PairingPhase.started;
            device = none;
            reason = "";
            expires_at = some (now +ℤ seconds duration);
          })
          ∷ [],
    )

abbrev disarmed : Option String → List Action → List Action
disarmed none rest = rest
disarmed (some _) rest = disarm ∷ rest

-- The backend's failure to stop is logged only.
unfoldable pub close : Manager → String → Event → Manager × List Action
close m session ev = if not (m.active_id == session) || (session == "") then (m, []) else (
  record { active_id = ""; timer = none },
  disarmed m.timer (backend_stop ∷ emit session ev ∷ []),
)

abbrev pub stopped_event : String → Event
stopped_event reason = record {
  phase = PairingPhase.stopped;
  device = none;
  reason = reason;
  expires_at = none;
}

unfoldable pub stop : Manager → String → String → Manager × List Action
unfolding close
stop m session reason = close m session (stopped_event reason)

-- The callback of the armed timer.
unfoldable pub timeout : Manager → String → Manager × List Action
unfolding close
timeout m session = close m session (stopped_event "timeout")

abbrev frees : PairingPhase → Bool
frees PairingPhase.completed = true
frees PairingPhase.failed = true
frees PairingPhase.started = false
frees PairingPhase.device_found = false
frees PairingPhase.interviewing = false
frees PairingPhase.stopped = false

-- The rest of `HandleBackendEvent`, after the session id was read and the lock given back: other
-- steps may have come in between.
unfoldable pub route_event : Manager → String → Event → Manager × List Action
unfolding close
route_event m session ev =
    if session == ""
    then (m, [])
    else if frees ev.phase
    then close m session ev
    else (m, emit session ev ∷ [])

unfoldable pub handle_backend_event : Manager → Event → Manager × List Action
unfolding route_event
handle_backend_event m ev = route_event m m.active_id ev
