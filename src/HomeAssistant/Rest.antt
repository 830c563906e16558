-- ===== src/HomeAssistant/Rest.antt =====
-- The REST calls (smart-home-agent/internal/ha/ha.go: `Version`, `CallService`, `restPost`, `State`,
-- the notifications and `CreateTestLight`). A reply may depend on all earlier requests, which are
-- logged newest first; websocket commands are logged beside them.
use Prim.Native.String.{◌++◌}
use smart_home_edge.Prelude.{
  ℕ, String, Bool, true, false, not, ◌&&◌, Option, none, some, List, [], ◌∷◌, Dict, lookup, leb,
  ltb, ◌==◌, if◌then◌else◌,
}
use smart_home_edge.Json.{Json, str, obj, field, end, as_string}
use smart_home_edge.HomeAssistant.{
  HaState, StateChange, Session, Problem, encode, unreachable, undecodable, status, no_flow_id,
  not_completed, Result, ok, err,
}
use smart_home_edge.HomeAssistant.Socket.{change_of, ws_command}

pub data Request : Type 0 where
  rest_get : (path : String) → Request
  rest_post : (path : String) → Dict Json → Request
  command : (msg_type : String) → Dict Json → Request

abbrev pub Log : Type 0
Log = List Request

-- `reply` is the status and the body, or `none` where no answer comes.
pub record Remote : Type 0 where
  pub token : String
  pub reply : Log → Request → Option (ℕ × String)
  pub session : Log → Session
  pub encodable : Dict Json → Bool
  pub decode_version : String → Option String
  pub decode_state : String → Option HaState
  pub decode_object : String → Option (Dict Json)

abbrev pub Call : Type 0 → Type 0
Call A = Log → Result A × Log

abbrev pub pure : {A : Type 0} → A → Call A
pure a log = (ok a, log)

abbrev pub raise : {A : Type 0} → Problem → Call A
raise e log = (err e, log)

abbrev pub next : {A B : Type 0} → Result A × Log → (A → Call B) → Result B × Log
next (ok a, log) f = f a log
next (err e, log) f = (err e, log)

abbrev pub tried : {A : Type 0} → Result A × Log → Result Bool × Log
tried (ok a, log) = (ok true, log)
tried (err e, log) = (ok false, log)

infixl 5 ◌>>=◌ ◌>>◌
abbrev pub ◌>>=◌ : {A B : Type 0} → Call A → (A → Call B) → Call B
◌>>=◌ m f log = next (m log) f

abbrev pub ◌>>◌ : {A B : Type 0} → Call A → Call B → Call B
◌>>◌ m k = m >>= λ _. k

-- Whether the call succeeds, its error dropped.
abbrev pub succeeds : {A : Type 0} → Call A → Call Bool
succeeds m log = tried (m log)

abbrev pub from : {A : Type 0} → Option A → Problem → Call A
from none e = raise e
from (some a) e = pure a

abbrev pub is_success : ℕ → Bool
is_success code = leb 200 code && ltb code 300

module _ (remote : Remote) where
  abbrev pub request : Request → Call (Option (ℕ × String))
  request r log = (ok (remote.reply log r), r ∷ log)

  abbrev pub version_in : Option (ℕ × String) → String
  version_in none = ""
  version_in (some (code, body)) = elim (remote.decode_version body) [ none ↦ "" | some v ↦ v ]

  -- The status is not looked at.
  unfoldable pub version : Call String
  version = do answer ← request (rest_get "/config"); pure (version_in answer)

  abbrev pub body_of : String → Option (ℕ × String) → Call String
  body_of path none = raise (unreachable path)
  body_of path (some (code, body)) =
      if not (is_success code) then raise (status path code) else pure body

  abbrev pub posted : String → Dict Json → Call String
  posted path fields =
      if not (remote.encodable fields)
      then raise (encode path)
      else (request (rest_post path fields) >>= body_of path)

  unfoldable pub call_service : (domain service : String) → Dict Json → Call (Unit {0})
  call_service domain service fields = do
    posted ("/services/" ++ (domain ++ ("/" ++ service))) fields
    pure tt

  unfoldable pub rest_post_object : String → Dict Json → Call (Dict Json)
  rest_post_object path fields = do
    body ← posted path fields
    from (remote.decode_object body) (undecodable path)

  unfoldable pub state_of : String → Call StateChange
  state_of entity_id = do
    answer ← request (rest_get ("/states/" ++ entity_id))
    body ← body_of ("/states/" ++ entity_id) answer
    st ← from (remote.decode_state body) (undecodable ("/states/" ++ entity_id))
    pure (change_of st)

  -- A notification that fails is only logged.
  unfoldable pub create_persistent_notification : (id title message : String) → Call (Unit {0})
  unfolding call_service
  create_persistent_notification id title message = do
    succeeds (
        call_service "persistent_notification" "create"
          (("notification_id", str id) ∷ ("title", str title) ∷ ("message", str message) ∷ []))
    pure tt

  unfoldable pub dismiss_persistent_notification : (id : String) → Call (Unit {0})
  unfolding call_service
  dismiss_persistent_notification id = do
    succeeds (call_service "persistent_notification" "dismiss" (("notification_id", str id) ∷ []))
    pure tt

  abbrev pub commanded : String → Dict Json → Call String
  commanded msg_type extra log =
      (ws_command remote.token (remote.session log) msg_type, command msg_type extra ∷ log)

  unfoldable pub ensure_test_toggle : Call (Unit {0})
  unfolding state_of ws_command
  ensure_test_toggle = do
    exists ← succeeds (state_of "input_boolean.bed_lights")
    elim exists [
      | true ↦ pure tt
      | false ↦
          (commanded "input_boolean/create"
              (("name", str "Bed Lights") ∷ ("icon", str "mdi:flashlight") ∷ [])
            >> pure tt)
    ]

  abbrev pub target : Json
  target = obj (field "entity_id" (str "input_boolean.bed_lights") end)

  abbrev pub toggle_action : String → Json
  toggle_action action = obj (field "action" (str action) (field "target" target end))

  abbrev pub light_fields : Dict Json
  light_fields =
      ("name", str "Bed Light")
      ∷ ("state", str "{{ is_state('input_boolean.bed_lights', 'on') }}")
      ∷ ("turn_on", toggle_action "input_boolean.turn_on")
      ∷ ("turn_off", toggle_action "input_boolean.turn_off")
      ∷ []

  -- `flow["flow_id"].(string)`, which may not be empty.
  abbrev pub flow_id_of : Dict Json → Call String
  flow_id_of flow =
      if as_string (lookup "flow_id" flow) == ""
      then raise no_flow_id
      else pure (as_string (lookup "flow_id" flow))

  abbrev pub drive_flow : Call (Unit {0})
  drive_flow = do
    flow ← rest_post_object "/config/config_entries/flow" (("handler", str "template") ∷ [])
    flow_id ← flow_id_of flow
    rest_post_object ("/config/config_entries/flow/" ++ flow_id)
        (("next_step_id", str "light") ∷ [])
    result ← rest_post_object ("/config/config_entries/flow/" ++ flow_id) light_fields
    if not (as_string (lookup "type" result) == "create_entry")
        then raise not_completed
        else pure tt

  unfoldable pub ensure_test_template_light : Call (Unit {0})
  unfolding state_of rest_post_object
  ensure_test_template_light = do
    exists ← succeeds (state_of "light.bed_light")
    elim exists [ true ↦ pure tt | false ↦ drive_flow ]

  unfoldable pub create_test_light : Call (Unit {0})
  unfolding ensure_test_toggle ensure_test_template_light
  create_test_light = do ensure_test_toggle; ensure_test_template_light
