-- ===== src/Gateway/Socket.antt =====
-- Websocket sessions with the Core (smart-home-agent/internal/onboard/client.go: `dialAuthedWS`,
-- `wsRoundTrip`, `CreateLongLivedToken`, `purgeLongLivedTokens`, `UpdateCoreConfig`,
-- `supervisorAPI`). A connection is the frames that are left to read.
use smart_home_edge.Prelude.{
  ℕ, suc, String, Bool, not, ◌&&◌, ◌||◌, Option, none, some, List, [], ◌∷◌, ◌++◌, Dict, nat_eq,
  ◌==◌, if◌then◌else◌,
}
use smart_home_edge.Json.{Json, str, num}
use smart_home_edge.Steps.{CoreConfig, fields}
use smart_home_edge.Gateway.{
  opened, commanded, undecodable, socket, rejected, Result, ok, err, Remote, Frame, RefreshToken,
  Call, pure, raise, ◌>>=◌, ◌>>◌, from, noted,
}

abbrev pub Conn : Type 0
Conn = List Frame

-- The answer to the command of a number, with the frames after it; other frames are skipped.
unfoldable pub await : ℕ → Conn → Result String × Conn
await id [] = (err (socket "read"), [])
await id (f ∷ rest) =
    let later = await id rest in
    if not (f.kind == "result") || not (nat_eq f.id id)
    then later
    else if not f.success
    then (err (rejected f.code f.message), rest)
    else (ok f.result, rest)

abbrev pub welcomed : Conn → Call Conn
welcomed [] = raise (socket "read auth result")
welcomed (f ∷ rest) =
    if not (f.kind == "auth_ok") then raise (socket "auth rejected") else pure rest

abbrev pub is_stale : String → RefreshToken → Bool
is_stale client_name t = (t.kind == "long_lived_access_token") && (t.client_name == client_name)

abbrev pub delete_command : RefreshToken → Dict Json
delete_command t = ("type", str "auth/delete_refresh_token") ∷ ("refresh_token_id", str t.id) ∷ []

module _ (remote : Remote) where
  -- A first frame of another type than `auth_required` is taken for a session that needs no token.
  abbrev pub greeted : Conn → Call Conn
  greeted [] w = (err (socket "read hello"), w)
  greeted (hello ∷ rest) w =
      if hello.kind == "auth_required"
      then (if remote.writes w.sent then welcomed rest w else (err (socket "send auth"), w))
      else (ok rest, w)

  abbrev pub dialled : Option Conn → Call Conn
  dialled none = raise (socket "dial")
  dialled (some frames) = greeted frames

  unfoldable pub dial_authed_ws : (access_token : String) → Call Conn
  dial_authed_ws access_token w =
      dialled (remote.dial w.sent) (noted remote (opened access_token) w)

  -- The result as a value, and the connection after it.
  unfoldable pub ws_round_trip : Conn → (id : ℕ) → Dict Json → Call (Result String × Conn)
  unfolding await
  ws_round_trip conn id cmd w =
      if not (remote.writes w.sent)
      then (ok (err (socket "send"), conn), w)
      else (ok (await id conn), noted remote (commanded id cmd) w)

  abbrev pub delete_stale : String → Conn → ℕ → List RefreshToken → Call Conn
  delete_stale client_name conn id [] = pure conn
  delete_stale client_name conn id (t ∷ rest) =
      if not (is_stale client_name t)
      then delete_stale client_name conn id rest
      else (ws_round_trip conn id (delete_command t)
          >>= (λ r. delete_stale client_name r.1 (suc id) rest))

  abbrev pub purged : String → Result String × Conn → Call Conn
  purged client_name (err e, conn) = pure conn
  purged client_name (ok raw, conn) = elim (remote.decode_tokens raw) [
    | none ↦ pure conn
    | some tokens ↦ delete_stale client_name conn 2 tokens
  ]

  unfoldable pub purge_long_lived_tokens : Conn → (client_name : String) → Call Conn
  unfolding ws_round_trip
  purge_long_lived_tokens conn client_name =
      ws_round_trip conn 1 (("type", str "auth/refresh_tokens") ∷ []) >>= purged client_name

  abbrev pub result_of : Result String × Conn → Call String
  result_of (err e, conn) = raise e
  result_of (ok raw, conn) = pure raw

  -- A token that an earlier run left under the name is deleted first.
  unfoldable pub create_long_lived_token : (access_token client_name : String) → Call String
  unfolding dial_authed_ws purge_long_lived_tokens ws_round_trip
  create_long_lived_token access_token client_name = do
    conn ← dial_authed_ws access_token
    left ← purge_long_lived_tokens conn client_name
    r ← ws_round_trip left 1000 (
        ("type", str "auth/long_lived_access_token")
        ∷ ("client_name", str client_name)
        ∷ ("lifespan", num "3650")
        ∷ [])
    raw ← result_of r
    from (remote.decode_text raw) (undecodable "long-lived token")

  abbrev pub token_now : Call String
  token_now w = (ok w.token, w)

  abbrev pub updated : Dict Json → Call (Unit {0})
  updated [] = pure tt
  updated (f ∷ fs) = do
    token ← token_now
    conn ← dial_authed_ws token
    r ← ws_round_trip conn 1 (("type", str "config/core/update") ∷ f ∷ fs)
    result_of r
    pure tt

  -- Nothing is sent where nothing is set.
  unfoldable pub update_core_config : CoreConfig → Call (Unit {0})
  unfolding fields dial_authed_ws ws_round_trip
  update_core_config cfg = updated (fields cfg)

  abbrev pub with_data : Option Json → Dict Json
  with_data none = []
  with_data (some payload) = ("data", payload) ∷ []

  abbrev pub with_timeout : Option String → Dict Json
  with_timeout none = []
  with_timeout (some seconds) = ("timeout", num seconds) ∷ []

  -- `method` in lower case; the server's timeout in seconds where it is positive.
  unfoldable pub supervisor_api :
      (method endpoint : String) → Option Json → (seconds : Option String) → Call String
  unfolding dial_authed_ws ws_round_trip
  supervisor_api method endpoint payload seconds = do
    token ← token_now
    conn ← dial_authed_ws token
    r ← ws_round_trip conn 1 (
        ("type", str "supervisor/api")
        ∷ ("endpoint", str endpoint)
        ∷ ("method", str method)
        ∷ (with_data payload ++ with_timeout seconds))
    result_of r
