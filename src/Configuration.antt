-- ===== src/Configuration.antt =====
-- How the agent's configuration is loaded (smart-home-agent/internal/config/config.go). The
-- environment, the files and the host name are parameters, and so are the decoder of the options
-- file, `url.Parse`, `strings.TrimSpace`, `strconv.Atoi` and `strconv.ParseBool`.
pub mod Texts
pub mod Sources
use Prim.Native.String.{◌++◌}
use smart_home_edge.Prelude.{
  ℤ, pos, ◌⊎◌, inl, inr, String, Bool, true, false, not, ◌&&◌, Option, none, some, List, [], ◌∷◌,
  ltb_ℤ, ◌==◌, if◌then◌else◌,
}
use smart_home_edge.Configuration.Texts.{
  trim_slashes, trim_left, trim_right, contains_text, has_prefix, cut_colon, split_lines,
}

pub record Config : Type 0 where
  pub cloud_base_url : String
  pub factory_key : String
  pub serial : String
  pub mqtt_host : String
  pub mqtt_port : ℤ
  pub mqtt_tls : Bool
  pub mqtt_tls_insecure : Bool
  pub supervisor_token : String
  pub ha_rest_base_url : String
  pub supervisor_base_url : String
  pub ha_websocket_url : String
  pub data_dir : String
  pub config_dir : String
  pub agent_version : String
  pub web_ui_port : ℤ
  pub log_level : String

-- A missing key is the zero value; of a Boolean, which is a pointer, it is `none`.
pub record Options : Type 0 where
  pub cloud_base_url : String
  pub factory_key : String
  pub serial : String
  pub mqtt_host : String
  pub mqtt_port : ℤ
  pub mqtt_tls : Option Bool
  pub mqtt_tls_insecure : Option Bool
  pub log_level : String

pub record Machine : Type 0 where
  -- `os.Getenv`: an unset variable is the empty text
  pub getenv : String → String
  pub read_file : String → Option String
  pub hostname : Option String
  -- `json.Unmarshal` into zero options, whose error is ignored
  pub decode_options : String → Options
  -- `u.Hostname()` of a URL that can be parsed
  pub url_hostname : String → Option String
  pub trim_space : String → String
  pub atoi : String → Option ℤ
  pub parse_bool : String → Option Bool
  -- set by the build
  pub agent_version : String

abbrev pub no_options : Options
no_options = record {
  cloud_base_url = "";
  factory_key = "";
  serial = "";
  mqtt_host = "";
  mqtt_port = pos 0;
  mqtt_tls = none;
  mqtt_tls_insecure = none;
  log_level = "";
}

unfoldable pub first_non_empty : List String → String
first_non_empty [] = ""
first_non_empty (v ∷ values) =
    let rest = first_non_empty values in if not (v == "") then v else rest

unfoldable pub first_positive : List ℤ → ℤ
first_positive [] = pos 0
first_positive (v ∷ values) =
    let rest = first_positive values in if ltb_ℤ (pos 0) v then v else rest

unfoldable pub bool_pref : Option Bool → Bool → Bool
bool_pref none fallback = fallback
bool_pref (some b) fallback = b

abbrev pub or_else : {A : Type 0} → Option A → A → A
or_else none fallback = fallback
or_else (some a) fallback = a

-- A setting that is missing.
pub data Missing : Type 0 where
  mqtt_host : Missing

unfoldable pub cloud_url : Config → String → String
cloud_url c path = trim_right c.cloud_base_url ++ ("/" ++ trim_left path)

unfoldable pub validate : Config → Option Missing
validate c = if c.mqtt_host == "" then some mqtt_host else none

module _ (machine : Machine) where
  unfoldable pub env_or : String → String → String
  env_or key fallback = if not (machine.getenv key == "") then machine.getenv key else fallback

  unfoldable pub env_int : String → ℤ → ℤ
  env_int key fallback =
      if not (machine.getenv key == "")
      then or_else (machine.atoi (machine.getenv key)) fallback
      else fallback

  unfoldable pub env_bool : String → Bool → Bool
  env_bool key fallback =
      if not (machine.getenv key == "")
      then or_else (machine.parse_bool (machine.getenv key)) fallback
      else fallback

  abbrev pub hostname_or : String → Option String → String
  hostname_or host none = trim_slashes host
  hostname_or host (some name) = if not (name == "") then name else trim_slashes host

  abbrev pub bare_host : String → String
  bare_host host =
      if host == ""
      then ""
      else if contains_text "://" host
      then hostname_or host (machine.url_hostname host)
      else trim_slashes host

  unfoldable pub normalize_mqtt_host : String → String
  unfolding trim_slashes contains_text
  normalize_mqtt_host raw = bare_host (machine.trim_space raw)

  unfoldable pub load_options : String → Options
  load_options path = elim (machine.read_file path) [
    | none ↦ no_options
    | some raw ↦ machine.decode_options raw
  ]

  -- The value of the first line that starts with `Serial` and has a colon.
  abbrev pub pi_serial_in : List String → String
  pi_serial_in [] = ""
  pi_serial_in (line ∷ lines) =
      let rest = pi_serial_in lines in
      if has_prefix "Serial" line
      then elim (cut_colon line) [ none ↦ rest | some value ↦ machine.trim_space value ]
      else rest

  unfoldable pub read_pi_serial : String
  unfolding has_prefix cut_colon split_lines
  read_pi_serial = elim (machine.read_file "/proc/cpuinfo") [
    | none ↦ ""
    | some raw ↦ pi_serial_in (split_lines raw)
  ]

  abbrev pub host_serial : Option String → String
  host_serial none = "unknown-serial"
  host_serial (some host) = if not (host == "") then "host-" ++ host else "unknown-serial"

  unfoldable pub resolve_serial : String
  unfolding read_pi_serial
  resolve_serial =
      if not (read_pi_serial == "") then "pi-" ++ read_pi_serial else host_serial machine.hostname

  abbrev pub or_resolved : String → String
  or_resolved serial = if serial == "" then resolve_serial else serial

  abbrev pub resolved : Options → String → Config
  resolved opts data_dir = record {
    cloud_base_url = first_non_empty (opts.cloud_base_url ∷ machine.getenv "CLOUD_BASE_URL" ∷ []);
    factory_key = first_non_empty (opts.factory_key ∷ machine.getenv "FACTORY_KEY" ∷ []);
    serial = or_resolved (first_non_empty (opts.serial ∷ machine.getenv "GATEWAY_SERIAL" ∷ []));
    mqtt_host =
        normalize_mqtt_host (first_non_empty (opts.mqtt_host ∷ machine.getenv "MQTT_HOST" ∷ []));
    mqtt_port = first_positive (opts.mqtt_port ∷ env_int "MQTT_PORT" (pos 8883) ∷ []);
    mqtt_tls = bool_pref opts.mqtt_tls (env_bool "MQTT_TLS" true);
    mqtt_tls_insecure = bool_pref opts.mqtt_tls_insecure (env_bool "MQTT_TLS_INSECURE" false);
    supervisor_token = machine.getenv "SUPERVISOR_TOKEN";
    ha_rest_base_url = env_or "HA_REST_BASE_URL" "http://supervisor/core/api";
    supervisor_base_url = env_or "SUPERVISOR_BASE_URL" "http://supervisor";
    ha_websocket_url = env_or "HA_WEBSOCKET_URL" "ws://supervisor/core/websocket";
    data_dir = data_dir;
    config_dir = env_or "AGENT_CONFIG_DIR" data_dir;
    agent_version = machine.agent_version;
    web_ui_port = env_int "WEBUI_PORT" (pos 8099);
    log_level = first_non_empty (opts.log_level ∷ env_or "LOG_LEVEL" "info" ∷ []);
  }

  abbrev pub checked : Config → Option Missing → Missing ⊎ Config
  checked cfg none = inr cfg
  checked cfg (some e) = inl e

  abbrev pub data_dir_of : String
  data_dir_of = env_or "AGENT_DATA_DIR" "/data"

  abbrev pub options_of : Options
  options_of = load_options (data_dir_of ++ "/options.json")

  unfoldable pub load : Missing ⊎ Config
  unfolding env_or env_int env_bool first_non_empty first_positive bool_pref normalize_mqtt_host
      load_options resolve_serial validate
  load = let cfg = resolved options_of data_dir_of in checked cfg (validate cfg)
