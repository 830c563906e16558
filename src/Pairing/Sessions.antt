-- ===== src/Pairing/Sessions.antt =====
-- Every session that is started ends exactly once (smart-home-agent/internal/pairing).
use smart_home_edge.Prelude.{
  ℕ, suc, ◌+◌, ◌≡◌, ◌≢◌, refl, String, Bool, true, false, Option, none, some, List, [], ◌∷◌, ◌++◌,
  arith, ℤ, ◌==◌, eq_iff, eq_refl, if◌then◌else◌,
}
use smart_home_edge.Contract.{PairingPhase}
use smart_home_edge.Pairing.{
  Event, Manager, Action, emit, backend_start, ok, err_busy, new_manager, start, close, stop,
  timeout, route_event,
}
use smart_home_edge.Pairing.Z2m.{BridgeEvent, map_bridge_event}

abbrev is_start : PairingPhase → Bool
is_start PairingPhase.started = true
is_start PairingPhase.completed = false
is_start PairingPhase.failed = false
is_start PairingPhase.device_found = false
is_start PairingPhase.interviewing = false
is_start PairingPhase.stopped = false

abbrev is_end : PairingPhase → Bool
is_end PairingPhase.started = false
is_end PairingPhase.completed = true
is_end PairingPhase.failed = true
is_end PairingPhase.device_found = false
is_end PairingPhase.interviewing = false
is_end PairingPhase.stopped = true

-- How many events of a session open it, and how many end it.
abbrev pub starts : String → List Action → ℕ
starts s [] = 0
starts s (emit t ev ∷ acts) =
    let rest = starts s acts in
    if is_start ev.phase then (if t == s then suc rest else rest) else rest
starts s (_ ∷ acts) = starts s acts

abbrev pub ends : String → List Action → ℕ
ends s [] = 0
ends s (emit t ev ∷ acts) =
    let rest = ends s acts in if is_end ev.phase then (if t == s then suc rest else rest) else rest
ends s (_ ∷ acts) = ends s acts

-- The phases that Zigbee2MQTT's events carry: never `started` or `stopped`.
abbrev pub FromBackend : Event → Type 0
FromBackend ev = (ev.phase ≢ PairingPhase.started) × (ev.phase ≢ PairingPhase.stopped)

-- What can happen to a manager, in any order: a command, a timeout of any session whose timer was
-- ever armed, and a backend event routed to a session id that was read earlier.
pub data Call : Type 0 where
  starting : (started : Bool) (now : ℤ) (session : String) (duration : ℤ) → Call
  stopping : (session reason : String) → Call
  timing_out : (session : String) → Call
  routing : (session : String) (ev : Event) → FromBackend ev → Call

pub perform : Manager → Call → Manager × List Action
perform m (starting started now session duration) =
    ((start started now m session duration).0, (start started now m session duration).2)
perform m (stopping session reason) = stop m session reason
perform m (timing_out session) = timeout m session
perform m (routing session ev _) = route_event m session ev

pub run : Manager → List Call → Manager × List Action
run m [] = (m, [])
run m (c ∷ cs) = ((run (perform m c).0 cs).0, (perform m c).1 ++ (run (perform m c).0 cs).1)

abbrev pub open_count : String → Manager → ℕ
open_count s m = if m.active_id == s then 1 else 0

starts-append :
    (s : String) (acts bs : List Action) → starts s (acts ++ bs) ≡ starts s acts + starts s bs
starts-append s [] bs = omega arith
starts-append s (emit t ev ∷ acts) bs = ground (arith, starts-append s acts bs)
starts-append s (backend_start d ∷ acts) bs = starts-append s acts bs
starts-append s (_ ∷ acts) bs = starts-append s acts bs

ends-append : (s : String) (acts bs : List Action) → ends s (acts ++ bs) ≡ ends s acts + ends s bs
ends-append s [] bs = omega arith
ends-append s (emit t ev ∷ acts) bs = ground (arith, ends-append s acts bs)
ends-append s (backend_start d ∷ acts) bs = ends-append s acts bs
ends-append s (_ ∷ acts) bs = ends-append s acts bs

perform_accounts :
    (s : String) (m : Manager) (c : Call)
    → (s == "") ≡ false
    → starts s (perform m c).1 + open_count s m
      ≡ ends s (perform m c).1 + open_count s (perform m c).0
unfolding perform start stop timeout route_event
perform_accounts s m (starting started now session duration) h =
    ground (arith, eq_iff m.active_id s, eq_iff m.active_id "", eq_iff s "", eq_iff session s)
perform_accounts s m (stopping session reason) h = ground (
  arith,
  eq_iff m.active_id s,
  eq_iff m.active_id session,
  eq_iff session s,
  eq_iff session "",
  eq_iff "" s,
  eq_iff s "",
)
perform_accounts s m (timing_out session) h = ground (
  arith,
  eq_iff m.active_id s,
  eq_iff m.active_id session,
  eq_iff session s,
  eq_iff session "",
  eq_iff "" s,
  eq_iff s "",
)
perform_accounts s m (routing session ev b) h = ground (
  arith,
  eq_iff m.active_id s,
  eq_iff m.active_id session,
  eq_iff session s,
  eq_iff session "",
  eq_iff "" s,
  eq_iff s "",
)

run_accounts :
    (s : String) (m : Manager) (cs : List Call)
    → (s == "") ≡ false
    → starts s (run m cs).1 + open_count s m ≡ ends s (run m cs).1 + open_count s (run m cs).0
unfolding run
run_accounts s m [] h = refl
run_accounts s m (c ∷ cs) h = omega (
  arith,
  starts-append s (perform m c).1 (run (perform m c).0 cs).1,
  ends-append s (perform m c).1 (run (perform m c).0 cs).1,
  perform_accounts s m c h,
  run_accounts s (perform m c).0 cs h,
)

-- From an idle manager, whatever commands, timeouts and backend events follow and in whatever
-- order, a session that is named has been started as often as it has been ended, plus one while
-- it is the active one: each start is matched by exactly one stopped, completed or failed event.
pub sessions_end_once :
    (s : String) (cs : List Call)
    → (s == "") ≡ false
    → starts s (run new_manager cs).1
      ≡ ends s (run new_manager cs).1 + open_count s (run new_manager cs).0
sessions_end_once s cs h = ground (arith, run_accounts s new_manager cs h, eq_iff "" s, eq_iff s "")

-- While a session is active a start is refused as busy: nothing changes and the backend is not
-- called.
pub start_busy :
    (started : Bool) (now : ℤ) (m : Manager) (session : String) (duration : ℤ)
    → (m.active_id == "") ≡ false
    → start started now m session duration ≡ (m, err_busy, [])
unfolding start
start_busy started now m session duration h = ground arith

-- A stop or a timeout of a session that is not the active one changes nothing and does nothing,
-- so the timer of an old session cannot end a new one.
pub stale_close :
    (m : Manager) (session reason : String)
    → (m.active_id == session) ≡ false
    → (stop m session reason ≡ (m, [])) × (timeout m session ≡ (m, []))
unfolding stop timeout
stale_close m session reason h = ground arith

close_active :
    (m : Manager) (ev : Event)
    → (m.active_id == "") ≡ false
    → (close m m.active_id ev).0 ≡ new_manager
unfolding close
close_active m ev h = rw (eq_refl m.active_id) (rw h)

-- After a stop, a timeout or a terminal backend event of the active session the manager is idle,
-- and the next start succeeds whenever the backend's does.
pub start-close :
    (m : Manager) (ev : Event) (now : ℤ) (next : String) (duration : ℤ)
    → (m.active_id == "") ≡ false
    → (start true now (close m m.active_id ev).0 next duration).1 ≡ ok
unfolding start
start-close m ev now next duration h = rw (close_active m ev h)

-- A bridge event that is mapped is neither a start nor a stop of a session.
pub map_bridge_event-FromBackend :
    (be : Option BridgeEvent) {ev : Event} → map_bridge_event be ≡ some ev → FromBackend ev
unfolding map_bridge_event
map_bridge_event-FromBackend none h = cc
map_bridge_event-FromBackend (some be) h = (λ e. ground arith, λ e. ground arith)
