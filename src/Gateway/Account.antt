-- ===== src/Gateway/Account.antt =====
-- Waiting for the Core, and the owner's account (smart-home-agent/internal/onboard/client.go:
-- `WaitForCore`, `OnboardingStatus`, `CreateOwner`, `Login`, `ExchangeCode`, `FinishOnboarding`).
use Prim.Native.String.{◌++◌}
use smart_home_edge.Prelude.{
  ℕ, zero, suc, ◌+◌, String, Bool, true, false, not, ◌&&◌, ◌||◌, Option, none, some, List, [], ◌∷◌,
  nat_eq, ltb, ◌==◌, if◌then◌else◌,
}
use smart_home_edge.Json.{null, str, arr, nil, cons}
use smart_home_edge.Steps.{OnboardingStatus, OwnerConfig}
use smart_home_edge.Gateway.{
  get, post_json, post_form, unreachable, starting, unexpected, undecodable, missing, login_failed,
  not_up, cancelled, ok, WizardStep, FlowResult, Remote, Call, pure, raise, ◌>>=◌, ◌>>◌, from, send,
  accepted,
}

-- The wizard is served, or is over and gone.
unfoldable pub onboarding_ready : ℕ → Bool
onboarding_ready status = nat_eq status 200 || nat_eq status 404

abbrev pub is_ready : Option (ℕ × String) → Bool
is_ready none = false
is_ready (some (status, body)) = onboarding_ready status

abbrev pub user_done : List WizardStep → Bool
user_done [] = false
user_done (s ∷ rest) = let later = user_done rest in ((s.step == "user") && s.done) || later

abbrev pub all_done : List WizardStep → Bool
all_done [] = true
all_done (s ∷ rest) = let later = all_done rest in s.done && later

module _ (remote : Remote) where
  abbrev pub time : Call ℕ
  time w = (ok w.clock, w)

  abbrev pub sleeping : ℕ → Call (Unit {0})
  sleeping n w = (ok tt, record w { clock = w.clock + n })

  -- Ask, give up after the deadline, and otherwise sleep three seconds and ask again.
  unfoldable pub wait_until : (rounds deadline : ℕ) → Call (Unit {0})
  unfolding onboarding_ready send
  wait_until zero deadline = raise not_up
  wait_until (suc rounds) deadline = do
    start ← time
    elim (remote.done_by start) [
      | true ↦ raise cancelled
      | false ↦ (do
        answer ← send remote (get "/api/onboarding")
        now ← time
        elim (is_ready answer) [
          | true ↦ pure tt
          | false ↦ (elim (ltb deadline now) [
            | true ↦ raise not_up
            | false ↦ (elim (remote.done_by (now + 3000000000)) [
              | true ↦ raise cancelled
              | false ↦ (sleeping 3000000000 >> wait_until rounds deadline)
            ])
          ])
        ])
    ]

  -- Every round but the last sleeps, so there are no more rounds than nanoseconds, and two.
  unfoldable pub wait_for_core : (timeout : ℕ) → Call (Unit {0})
  unfolding wait_until
  wait_for_core timeout = do now ← time; wait_until (timeout + 2) (now + timeout)

  abbrev pub wizard_status : List WizardStep → OnboardingStatus
  wizard_status steps = record { user_done = user_done steps; all_done = all_done steps }

  abbrev pub status_in : Option (ℕ × String) → Call OnboardingStatus
  status_in none = raise (unreachable "onboarding status")
  status_in (some (status, body)) =
      if nat_eq status 404
      then pure (record { user_done = true; all_done = true })
      else if nat_eq status 401 || nat_eq status 403
      then raise (starting status)
      else if not (nat_eq status 200)
      then raise (unexpected "onboarding status" status)
      else (from (remote.decode_wizard body) (undecodable "onboarding status")
          >>= (λ steps. pure (wizard_status steps)))

  unfoldable pub onboarding_status : Call OnboardingStatus
  unfolding send
  onboarding_status = send remote (get "/api/onboarding") >>= status_in

  -- A text that may not be empty.
  abbrev pub nonempty : String → String → Call String
  nonempty what s = if s == "" then raise (missing what) else pure s

  abbrev pub language_or_english : String → String
  language_or_english language = if language == "" then "en" else language

  unfoldable pub create_owner : OwnerConfig → Call String
  unfolding send
  create_owner o = do
    answer ← send remote (
        post_json "/api/onboarding/users" (
          ("client_id", str remote.client_id)
          ∷ ("name", str o.name)
          ∷ ("username", str o.username)
          ∷ ("password", str o.password)
          ∷ ("language", str (language_or_english o.language))
          ∷ []))
    body ← accepted remote "create owner" answer
    auth_code ← from (remote.decode_field "auth_code" body) (undecodable "create owner")
    nonempty "auth_code" auth_code

  abbrev pub entry_of : FlowResult → Call String
  entry_of r =
      if not (r.kind == "create_entry") || (r.result == "")
      then raise login_failed
      else pure r.result

  unfoldable pub login : (username password : String) → Call String
  unfolding send
  login username password = do
    begun ← send remote (
        post_json "/auth/login_flow" (
          ("client_id", str remote.client_id)
          ∷ ("handler", arr (cons (str "homeassistant") (cons null nil)))
          ∷ ("redirect_uri", str remote.client_id)
          ∷ []))
    body ← accepted remote "start flow" begun
    flow ← from (remote.decode_flow body) (undecodable "flow")
    flow_id ← nonempty "flow id" flow.flow_id
    answer ← send remote (
        post_json ("/auth/login_flow/" ++ flow_id) (
          ("client_id", str remote.client_id)
          ∷ ("username", str username)
          ∷ ("password", str password)
          ∷ []))
    raw ← accepted remote "submit credentials" answer
    result ← from (remote.decode_flow_result raw) (undecodable "result")
    entry_of result

  unfoldable pub exchange_code : (auth_code : String) → Call String
  unfolding send
  exchange_code auth_code = do
    answer ← send remote (
        post_form "/auth/token" (
          ("grant_type", "authorization_code")
          ∷ ("code", auth_code)
          ∷ ("client_id", remote.client_id)
          ∷ []))
    body ← accepted remote "exchange code" answer
    access_token ← from (remote.decode_field "access_token" body) (undecodable "exchange code")
    nonempty "access_token" access_token

  -- Each of the three may fail.
  unfoldable pub finish_onboarding : Call (Unit {0})
  unfolding send
  finish_onboarding = do
    send remote (post_json "/api/onboarding/core_config" [])
    send remote (post_json "/api/onboarding/analytics" [])
    send remote (
        post_json "/api/onboarding/integration"
          (("client_id", str remote.client_id) ∷ ("redirect_uri", str remote.client_id) ∷ []))
    pure tt
