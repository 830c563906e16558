-- ===== src/Tests/Installing.antt =====
-- The onboarding steps on a small gateway.
use smart_home_edge.Prelude.{
  ℕ, ◌+◌, ◌≡◌, refl, pos, String, Bool, true, false, not, Option, none, some, List, [], ◌∷◌, Dict,
  lookup, ◌==◌, if◌then◌else◌,
}
use smart_home_edge.Json.{Json, null, bool, num, str, arr, obj, end, field, as_map}
use smart_home_edge.Supervisor.{AddonInfo}
use smart_home_edge.Onboard.{run}
use smart_home_edge.Steps.{ok, Problem, DeviceApi, Host, State, ZigbeeConfig}
use smart_home_edge.Steps.Options.{merged_zigbee_options, zigbee_serial_satisfied}
use smart_home_edge.Steps.Merge.{EncodesTexts, merged_zigbee_options-satisfied}
use smart_home_edge.Steps.Build.{build_steps}
use smart_home_edge.Onboard.Order.{done_names}
use smart_home_edge.Steps.Outcome.{onboarding_names, Identified, run-Onboarded}

-- A gateway with one add-on.
record Box : Type 0 where
  token : String
  repositories : List String
  installed : Bool
  running : Bool
  options : Dict Json
  clock : ℕ

abbrev info_of : Box → AddonInfo
info_of d = record {
  slug = "a1_smart_home_agent";
  installed = d.installed;
  version = "1";
  state = if d.running then "started" else "stopped";
  auto_update = false;
  update_available = false;
  options = d.options;
}

abbrev api : DeviceApi Box
api = record {
  wait_for_core = λ t d. (ok tt, d);
  onboarding_status = λ d. (ok (record { user_done = not (d.token == ""); all_done = false }), d);
  create_owner = λ o d. (ok "code", d);
  login = λ u p d. (ok "code", d);
  exchange_code = λ c d. (ok "short", d);
  create_long_lived_token = λ t n d. (ok "long", d);
  finish_onboarding = λ d. (ok tt, d);
  update_core_config = λ c d. (ok tt, d);
  set_token = λ t d. record d { token = t };
  token = λ d. d.token;
  store_repositories = λ d. (ok d.repositories, d);
  add_store_repository = λ u d. (ok tt, record d { repositories = u ∷ d.repositories });
  resolve_addon_slug = λ a d. (ok (some "a1_smart_home_agent"), d);
  addon_info = λ s d. (ok (info_of d), d);
  install_addon = λ t s d. (ok tt, record d { installed = true });
  set_addon_options = λ s o d. (ok tt, record d { options = o });
  start_addon = λ s d. (ok tt, record d { running = true });
  restart_addon = λ s d. (ok tt, d);
  claim_info = λ s d. (
    ok (record {
      uid = if d.running then "u1" else "";
      serial = "s";
      claimed = false;
      claim_code = "ABCD";
    }),
    d,
  );
}

abbrev encode : Json → Option String
encode (str s) = some s
encode null = some "null"
encode (bool b) = some "bool"
encode (num n) = some n
encode (arr xs) = some "[]"
encode (obj fs) = some "{}"

abbrev host : Host Box
host = record {
  api = api;
  sleep = λ n d. (ok tt, record d { clock = d.clock + n });
  now = λ d. d.clock;
  trim_space = λ s. s;
  to_lower = λ s. s;
  marshal = encode;
  decimal = λ n. "115200";
}

encodes : EncodesTexts host
unfolding EncodesTexts
encodes s = (s, refl)

abbrev fresh : State Box
fresh = record {
  client = record {
    token = "";
    repositories = [];
    installed = false;
    running = false;
    options = [];
    clock = 0;
  };
  manifest = record {
    addon_repository = "https://edge";
    addons =
        record {
          name = "Agent";
          match = "smart_home_agent";
          slug = "";
          repository = "";
          core = false;
        }
        ∷ record { name = "Broker"; match = "mosquitto"; slug = ""; repository = ""; core = true }
        ∷ [];
  };
  owner = record { name = "Home"; username = "home"; password = "secret"; language = "en" };
  core_config = record {
    country = "SA";
    time_zone = "";
    currency = "";
    unit_system = "";
    language = "";
  };
  agent_options = ("mqtt_host", str "broker") ∷ [];
  zigbee = record { port = ""; adapter = ""; baudrate = pos 0 };
  timeouts = record { wait_core = 5; wait_provision = 5 };
  dev = false;
  access_token = "";
  agent_slug = "";
  claim = record { uid = ""; serial = ""; claimed = false; claim_code = "" };
}

abbrev never : State Box → Option Problem
never s = none

-- A fresh gateway is onboarded without a failure, and its identity is captured.
onboarded :
    ((run never (build_steps host) fresh).2 ≡ none)
    × ((run never (build_steps host) fresh).0.claim.claim_code ≡ "ABCD")
    × ((run never (build_steps host) fresh).0.client.options ≡ ("mqtt_host", str "broker") ∷ [])
unfolding run build_steps lookup
onboarded = (refl, refl, refl)

-- A running Zigbee2MQTT with other options, and a radio at another port.
abbrev current : Dict Json
current =
    ("socat", bool false)
    ∷ ("serial", obj (field "port" (str "/dev/ttyUSB0") (field "rtscts" (bool true) end)))
    ∷ []

abbrev dongle : ZigbeeConfig
dongle = record { port = "/dev/ttyACM0"; adapter = "ember"; baudrate = pos 0 }

merged_zigbee_options-satisfied_example :
    (zigbee_serial_satisfied host (merged_zigbee_options host current dongle) dongle ≡ true)
    × ((key : String)
        → ("serial" == key) ≡ false
        → lookup key (merged_zigbee_options host current dongle) ≡ lookup key current)
    × ((key : String)
        → ("port" == key) ≡ false
        → ("adapter" == key) ≡ false
        → ("baudrate" == key) ≡ false
        → lookup key (as_map (lookup "serial" (merged_zigbee_options host current dongle)))
          ≡ lookup key (as_map (lookup "serial" current)))
merged_zigbee_options-satisfied_example =
    merged_zigbee_options-satisfied host current dongle encodes

run-Onboarded_example :
    (done_names (run never (build_steps host) fresh).1 ≡ onboarding_names)
    × Identified (run never (build_steps host) fresh).0
run-Onboarded_example = run-Onboarded host never fresh onboarded.0
