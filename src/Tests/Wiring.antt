-- ===== src/Tests/Wiring.antt =====
-- The client of a gateway on a second run, where a token of the same name is left.
use smart_home_edge.Prelude.{
  ◌≡◌, refl, ℕ, pos, String, true, false, Option, none, some, [], ◌∷◌, ◌==◌, if◌then◌else◌,
}
use smart_home_edge.Gateway.{
  Sent, get, post_json, post_form, opened, commanded, Wire, ok, Remote, Frame,
}
use smart_home_edge.Gateway.Account.{onboarding_status, wait_for_core}
use smart_home_edge.Gateway.Socket.{create_long_lived_token}
use smart_home_edge.Gateway.Claim.{claim_info}
use smart_home_edge.Gateway.Waiting.{claimed_through, claimed_through-IsTimed}
use smart_home_edge.Steps.{err, Answer, device, not_provisioned, Host, State}
use smart_home_edge.Steps.Agent.{await_act}
use smart_home_edge.Steps.Awaiting.{Awaited, await_act-Awaited}

abbrev frame : ℕ → String → String → Frame
frame id kind result = record {
  id = id;
  kind = kind;
  success = true;
  result = result;
  code = "";
  message = "";
}

abbrev onboarded : Sent → Option (ℕ × String)
onboarded (get path) = if path == "/api/onboarding" then some (404, "") else some (200, "logs")
onboarded (post_json path fields) = some (200, "")
onboarded (post_form path fields) = some (200, "")
onboarded (opened token) = none
onboarded (commanded id cmd) = none

abbrev second_run : Remote
second_run = record {
  client_id = "http://gw/";
  reply = λ sent r. onboarded r;
  takes = λ sent. 1000;
  done_by = λ t. false;
  dial = λ sent. some (
      frame 0 "auth_required" ""
      ∷ frame 0 "auth_ok" ""
      ∷ frame 1 "result" "tokens"
      ∷ frame 2 "result" ""
      ∷ frame 1000 "result" "fresh"
      ∷ []);
  writes = λ sent. true;
  decode_wizard = λ raw. some [];
  decode_flow = λ raw. none;
  decode_flow_result = λ raw. none;
  decode_field = λ key raw. none;
  decode_text = λ raw. some raw;
  decode_tokens = λ raw. some (
      record { id = "r1"; kind = "normal"; client_name = "" }
      ∷ record { id = "r2"; kind = "long_lived_access_token"; client_name = "smart-onboard" }
      ∷ []);
  decode_message = λ raw. some "";
  match = λ pattern text. if pattern == "claim_status=([a-z]+)" then some "claimed" else none;
  unquoted = λ s. s;
}

abbrev unused : Wire
unused = record { token = ""; sent = []; clock = 0 }

-- The token of the same name is deleted, and a new one is made.
minted : (create_long_lived_token second_run "short" "smart-onboard" unused).0 ≡ ok "fresh"
unfolding create_long_lived_token
minted = refl

-- An endpoint that is gone means that the wizard is over.
finished :
    (onboarding_status second_run unused).0 ≡ ok (record { user_done = true; all_done = true })
unfolding onboarding_status
finished = refl

answers_at_once : (wait_for_core second_run 2000000000 unused).0 ≡ ok tt
unfolding wait_for_core
answers_at_once = refl

-- A claimed gateway is not asked for its notification.
claimed_gateway :
    (claim_info second_run "agent" unused).0
    ≡ ok (record { uid = ""; serial = ""; claimed = true; claim_code = "" })
unfolding claim_info
claimed_gateway = refl

abbrev silent : {A : Type 0} → Wire → Answer A × Wire
silent w = (err (device "no answer"), w)

abbrev unanswered : Host Wire
unanswered = record {
  api = record {
    wait_for_core = λ t w. silent w;
    onboarding_status = λ w. silent w;
    create_owner = λ o w. silent w;
    login = λ u p w. silent w;
    exchange_code = λ c w. silent w;
    create_long_lived_token = λ t n w. silent w;
    finish_onboarding = λ w. silent w;
    update_core_config = λ c w. silent w;
    set_token = λ t w. w;
    token = λ w. w.token;
    store_repositories = λ w. silent w;
    add_store_repository = λ u w. silent w;
    resolve_addon_slug = λ a w. silent w;
    addon_info = λ s w. silent w;
    install_addon = λ t s w. silent w;
    set_addon_options = λ s o w. silent w;
    start_addon = λ s w. silent w;
    restart_addon = λ s w. silent w;
    claim_info = λ s w. silent w;
  };
  sleep = λ n w. silent w;
  now = λ w. w.clock;
  trim_space = λ s. s;
  to_lower = λ s. s;
  marshal = λ j. none;
  decimal = λ n. "0";
}

abbrev waiting : State Wire
waiting = record {
  client = unused;
  manifest = record { addon_repository = ""; addons = [] };
  owner = record { name = ""; username = ""; password = ""; language = "" };
  core_config = record {
    country = "";
    time_zone = "";
    currency = "";
    unit_system = "";
    language = "";
  };
  agent_options = [];
  zigbee = record { port = ""; adapter = ""; baudrate = pos 0 };
  timeouts = record { wait_core = 0; wait_provision = 500 };
  dev = true;
  access_token = "";
  agent_slug = "agent";
  claim = record { uid = ""; serial = ""; claimed = false; claim_code = "" };
}

abbrev through_client : Host Wire
through_client = claimed_through second_run (λ f. "fault") unanswered

-- The client answers a request in 1000 nanoseconds, and no log tells a uid.
await_act-Awaited_example : Awaited through_client 500 (await_act through_client waiting)
unfolding claimed_through
await_act-Awaited_example =
    await_act-Awaited through_client waiting
      (claimed_through-IsTimed second_run (λ f. "fault") unanswered)

-- The wait is over after the first answer.
late : (await_act through_client waiting).0 ≡ err not_provisioned
unfolding claimed_through await_act claim_info
late = refl
