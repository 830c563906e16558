-- ===== src/Gateway/Claim.antt =====
-- The agent's identity and claim code, from its log (smart-home-agent/internal/onboard/client.go:
-- `ClaimInfo`, `addonLogs`, `claimCodeFromNotification`).
use Prim.Native.String.{◌++◌}
use smart_home_edge.Prelude.{ℕ, String, not, ◌&&◌, Option, none, some, nat_eq, ◌==◌, if◌then◌else◌}
use smart_home_edge.Steps.{ClaimInfo}
use smart_home_edge.Gateway.{get, Remote, Call, pure, ◌>>=◌, send, accepted}

abbrev pub re_uid : String
re_uid = "\\buid=([0-9a-zA-Z_-]{8,})"

abbrev pub re_serial : String
re_serial = "\\bserial=(\\S+)"

abbrev pub re_claim_status : String
re_claim_status = "claim_status=([a-z]+)"

abbrev pub re_claim_logfmt : String
re_claim_logfmt = "claim_code=([A-Za-z0-9]{4}-[A-Za-z0-9]{4})"

abbrev pub re_claim_notif : String
re_claim_notif = "\\*\\*([A-Za-z0-9]{4}-[A-Za-z0-9]{4})\\*\\*"

abbrev pub or_empty : Option String → String
or_empty none = ""
or_empty (some s) = s

module _ (remote : Remote) where
  unfoldable pub addon_logs : (slug : String) → Call String
  unfolding send
  addon_logs slug =
      send remote (get ("/api/hassio/addons/" ++ (slug ++ "/logs")))
      >>= accepted remote "addon logs"

  abbrev pub serial_in : Option String → String
  serial_in none = ""
  serial_in (some s) = remote.unquoted s

  abbrev pub code_in : Option (ℕ × String) → String
  code_in none = ""
  code_in (some (status, body)) =
      if not (nat_eq status 200) then "" else elim (remote.decode_message body) [
        | none ↦ ""
        | some message ↦ or_empty (remote.match re_claim_notif message)
      ]

  unfoldable pub claim_code_from_notification : Call String
  unfolding send
  claim_code_from_notification = do
    answer ← send remote (get "/api/states/persistent_notification.smart_home_claim_code")
    pure (code_in answer)

  abbrev pub told : String → ClaimInfo
  told logs = record {
    uid = or_empty (remote.match re_uid logs);
    serial = serial_in (remote.match re_serial logs);
    claimed = or_empty (remote.match re_claim_status logs) == "claimed";
    claim_code = or_empty (remote.match re_claim_logfmt logs);
  }

  -- Where the log shows no code and no claim, the notification is asked.
  abbrev pub completed : ClaimInfo → Call ClaimInfo
  completed info =
      if (info.claim_code == "") && not info.claimed
      then (claim_code_from_notification >>= (λ code. pure (record info { claim_code = code })))
      else pure info

  unfoldable pub claim_info : (agent_slug : String) → Call ClaimInfo
  unfolding addon_logs claim_code_from_notification
  claim_info agent_slug = do logs ← addon_logs agent_slug; completed (told logs)
