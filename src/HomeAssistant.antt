-- ===== src/HomeAssistant.antt =====
-- The Home Assistant client (smart-home-agent/internal/ha/ha.go). A websocket session is the frames
-- that it delivers before a read fails, and whether each write succeeds; HTTP, the decoders and the
-- encoder are parameters.
pub mod Socket
pub mod Rest
pub mod Registry
pub mod Mirrors
pub mod Live
use smart_home_edge.Prelude.{ℕ, ℤ, String, Bool, Option, List, Dict}
use smart_home_edge.Json.{Json}

pub record HaState : Type 0 where
  pub entity_id : String
  pub state : String
  pub attributes : Dict Json
  pub last_changed : String

pub record StateChange : Type 0 where
  pub entity_id : String
  pub state : String
  pub attributes : Dict Json
  pub last_changed : String

-- A frame of the websocket, with the fields that any reader looks at; `result` is left encoded.
pub record Frame : Type 0 where
  pub id : ℤ
  pub kind : String
  pub message : String
  pub success : Bool
  pub result : String
  pub error_message : String
  pub event_type : String
  pub new_state : Option HaState

pub record Session : Type 0 where
  pub dialled : Bool
  pub frames : List Frame
  -- whether the write of a number, from zero, succeeds
  pub writes : ℕ → Bool

pub data Problem : Type 0 where
  missing_token dial auth_hello auth_send auth_result : Problem
  unexpected : (kind : String) → Problem
  rejected : (kind message : String) → Problem
  send read : (what : String) → Problem
  failed : (what message : String) → Problem
  encode unreachable undecodable : (path : String) → Problem
  status : (path : String) (code : ℕ) → Problem
  no_flow_id : Problem
  not_completed : Problem

pub data Result (A : Type 0) : Type 0 where
  ok : A → Result A
  err : Problem → Result A
