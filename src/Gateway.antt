-- ===== src/Gateway.antt =====
-- The client of a gateway that is onboarded (smart-home-agent/internal/onboard/client.go): its HTTP
-- requests and websocket sessions, logged newest first. What the gateway answers may depend on all
-- that was sent before; the decoders, the regular expressions' matches and the texts of errors are
-- parameters or shortened, and durations are nanoseconds.
pub mod Account
pub mod Socket
pub mod Claim
pub mod Waiting
use smart_home_edge.Prelude.{
  ℕ, ◌+◌, ℤ, String, Bool, true, false, Option, none, some, List, [], ◌∷◌, Dict, nat_eq, ◌||◌, ◌==◌,
  if◌then◌else◌,
}
use smart_home_edge.Json.{Json}

pub data Sent : Type 0 where
  get : (path : String) → Sent
  post_json : (path : String) → Dict Json → Sent
  post_form : (path : String) → Dict String → Sent
  -- a websocket session with a token, and a command in it
  opened : (access_token : String) → Sent
  commanded : (id : ℕ) → Dict Json → Sent

pub record Wire : Type 0 where
  pub token : String
  pub sent : List Sent
  pub clock : ℕ

-- `rejected` is Home Assistant's own refusal of a command.
pub data Fault : Type 0 where
  unreachable : (what : String) → Fault
  starting : (status : ℕ) → Fault
  unexpected : (what : String) (status : ℕ) → Fault
  undecodable : (what : String) → Fault
  missing : (what : String) → Fault
  login_failed : Fault
  not_up : Fault
  cancelled : Fault
  socket : (what : String) → Fault
  rejected : (code message : String) → Fault

pub data Result (A : Type 0) : Type 0 where
  ok : A → Result A
  err : Fault → Result A

pub record WizardStep : Type 0 where
  pub step : String
  pub done : Bool

pub record Flow : Type 0 where
  pub flow_id : String

pub record FlowResult : Type 0 where
  pub kind : String
  pub result : String

pub record RefreshToken : Type 0 where
  pub id : String
  pub kind : String
  pub client_name : String

pub record Frame : Type 0 where
  pub id : ℕ
  pub kind : String
  pub success : Bool
  pub result : String
  pub code : String
  pub message : String

pub record Remote : Type 0 where
  pub client_id : String
  -- the status and the body, or `none` where no answer comes
  pub reply : List Sent → Sent → Option (ℕ × String)
  -- how long a request takes, and whether the context is done at a time
  pub takes : List Sent → ℕ
  pub done_by : ℕ → Bool
  -- the frames that a session delivers before a read fails, or `none` where the dial fails, and
  -- whether a write succeeds
  pub dial : List Sent → Option (List Frame)
  pub writes : List Sent → Bool
  pub decode_wizard : String → Option (List WizardStep)
  pub decode_flow : String → Option Flow
  pub decode_flow_result : String → Option FlowResult
  -- the text under a key of an object, the empty text where it is missing
  pub decode_field : (key : String) → String → Option String
  pub decode_text : String → Option String
  pub decode_tokens : String → Option (List RefreshToken)
  pub decode_message : String → Option String
  -- the first group of the first match of a regular expression
  pub match : (pattern text : String) → Option String
  -- `strings.Trim(s, "\"")`
  pub unquoted : String → String

abbrev pub Call : Type 0 → Type 0
Call A = Wire → Result A × Wire

abbrev pub pure : {A : Type 0} → A → Call A
pure a w = (ok a, w)

abbrev pub raise : {A : Type 0} → Fault → Call A
raise e w = (err e, w)

abbrev pub next : {A B : Type 0} → Result A × Wire → (A → Call B) → Result B × Wire
next (ok a, w) f = f a w
next (err e, w) f = (err e, w)

infixl 5 ◌>>=◌ ◌>>◌
abbrev pub ◌>>=◌ : {A B : Type 0} → Call A → (A → Call B) → Call B
◌>>=◌ m f w = next (m w) f

abbrev pub ◌>>◌ : {A B : Type 0} → Call A → Call B → Call B
◌>>◌ m k = m >>= λ _. k

abbrev pub kept : {A : Type 0} → Result A × Wire → Result (Result A) × Wire
kept (r, w) = (ok r, w)

-- The error of a call as a value.
abbrev pub attempt : {A : Type 0} → Call A → Call (Result A)
attempt m w = kept (m w)

abbrev pub from : {A : Type 0} → Option A → Fault → Call A
from none e = raise e
from (some a) e = pure a

unfoldable pub set_token : String → Wire → Wire
set_token token w = record w { token = token }

module _ (remote : Remote) where
  abbrev pub noted : Sent → Wire → Wire
  noted r w = record w { sent = r ∷ w.sent; clock = w.clock + remote.takes w.sent }

  unfoldable pub send : Sent → Call (Option (ℕ × String))
  send r w = (ok (remote.reply w.sent r), noted r w)

  -- The body of an answer with the status 200.
  abbrev pub accepted : String → Option (ℕ × String) → Call String
  accepted what none = raise (unreachable what)
  accepted what (some (status, body)) =
      if nat_eq status 200 then pure body else raise (unexpected what status)
