-- ===== src/HomeAssistant/Socket.antt =====
-- The websocket sessions (smart-home-agent/internal/ha/ha.go: `handshake`, `wsCommand`, `streamOnce`,
-- `streamRegistryOnce`).
use smart_home_edge.Prelude.{
  ℕ, ℤ, pos, ◌+◌, String, Bool, not, ◌&&◌, ◌||◌, Option, none, some, List, [], ◌∷◌, leb_ℤ, ◌==◌,
  if◌then◌else◌,
}
use smart_home_edge.HomeAssistant.{
  HaState, StateChange, Frame, Session, Problem, missing_token, dial, auth_hello, auth_send,
  auth_result, unexpected, rejected, send, read, failed, Result, ok, err,
}

-- The frames that are left, and the number of the next write.
abbrev pub Opened : Type 0
Opened = Result (List Frame × ℕ)

abbrev pub authenticated : List Frame → Opened
authenticated [] = err auth_result
authenticated (r ∷ rest) =
    if r.kind == "auth_ok" then ok (rest, 1) else err (rejected r.kind r.message)

abbrev pub greeted : (ℕ → Bool) → List Frame → Opened
greeted writes [] = err auth_hello
greeted writes (hello ∷ rest) =
    if hello.kind == "auth_ok"
    then ok (rest, 0)
    else if hello.kind == "auth_required"
    then (if writes 0 then authenticated rest else err auth_send)
    else err (unexpected hello.kind)

unfoldable pub handshake : Session → Opened
handshake s = greeted s.writes s.frames

-- Every session asks for the token first.
abbrev pub open_session : String → Session → Opened
open_session token s =
    if token == "" then err missing_token else if not s.dialled then err dial else handshake s

abbrev pub same_id : ℤ → ℤ → Bool
same_id a b = leb_ℤ a b && leb_ℤ b a

-- Frames that do not answer the command are skipped.
unfoldable pub await_result : String → List Frame → Result String
await_result msg_type [] = err (read msg_type)
await_result msg_type (f ∷ rest) =
    let later = await_result msg_type rest in
    if (f.kind == "result") && same_id f.id (pos 1)
    then (if not f.success then err (failed msg_type f.error_message) else ok f.result)
    else later

abbrev pub sent : String → (ℕ → Bool) → Opened → Result String
sent msg_type writes (err e) = err e
sent msg_type writes (ok (frames, n)) =
    if not (writes n) then err (send msg_type) else await_result msg_type frames

unfoldable pub ws_command : String → Session → String → Result String
unfolding handshake await_result
ws_command token s msg_type = sent msg_type s.writes (open_session token s)

-- A removed entity has no new state, and is not reported.
abbrev pub change_of : HaState → StateChange
change_of st = record {
  entity_id = st.entity_id;
  state = st.state;
  attributes = st.attributes;
  last_changed = st.last_changed;
}

abbrev pub onto : Option HaState → List StateChange → List StateChange
onto none rest = rest
onto (some st) rest = change_of st ∷ rest

unfoldable pub changes_in : List Frame → List StateChange
changes_in [] = []
changes_in (f ∷ rest) =
    let later = changes_in rest in
    if not (f.kind == "event") || not (f.event_type == "state_changed")
    then later
    else onto f.new_state later

-- What was streamed, and why the session ended: it always ends with an error.
abbrev pub streamed : (ℕ → Bool) → Opened → List StateChange × Problem
streamed writes (err e) = ([], e)
streamed writes (ok (frames, n)) =
    if not (writes n)
    then ([], send "subscribe_events")
    else (changes_in frames, read "state_changed")

unfoldable pub stream_once : String → Session → List StateChange × Problem
unfolding handshake changes_in
stream_once token s = streamed s.writes (open_session token s)

-- Whether a signal is pending after the frames: signals are coalesced.
unfoldable pub signalled : Bool → List Frame → Bool
signalled pending [] = pending
signalled pending (f ∷ rest) = signalled (pending || (f.kind == "event")) rest

abbrev pub subscribed : (ℕ → Bool) → ℕ → Bool
subscribed writes n = writes n && (writes (n + 1) && writes (n + 2))

abbrev pub registry_streamed : Bool → (ℕ → Bool) → Opened → Bool × Problem
registry_streamed pending writes (err e) = (pending, e)
registry_streamed pending writes (ok (frames, n)) =
    if not (subscribed writes n)
    then (pending, send "subscribe_events")
    else (signalled pending frames, read "registry_updated")

unfoldable pub stream_registry_once : String → Bool → Session → Bool × Problem
unfolding handshake signalled
stream_registry_once token pending s = registry_streamed pending s.writes (open_session token s)
