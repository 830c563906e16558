-- ===== src/Tests/Loading.antt =====
-- The configuration of a machine with an options file.
use smart_home_edge.Prelude.{◌≡◌, refl, false, none, some, ◌==◌, if◌then◌else◌}
use smart_home_edge.Configuration.{Machine, no_options, load, resolve_serial, normalize_mqtt_host}
use smart_home_edge.Configuration.Sources.{Loaded, load-Loaded}

abbrev gateway : Machine
gateway = record {
  getenv = λ key. "";
  read_file = λ path.
      if path == "/proc/cpuinfo"
      then some "Model: Pi\nSerial : 10000000abcd\n"
      else if path == "/data/options.json"
      then some "{}"
      else none;
  hostname = none;
  decode_options =
      λ raw. record no_options { mqtt_host = "https://broker/"; mqtt_tls = some false };
  url_hostname = λ url. some "broker";
  trim_space = λ s. s;
  atoi = λ s. none;
  parse_bool = λ s. none;
  agent_version = "dev";
}

-- The serial is read from the machine, and the host from the URL.
derived :
    (resolve_serial gateway ≡ "pi- 10000000abcd")
    × (normalize_mqtt_host gateway "https://broker/" ≡ "broker")
unfolding resolve_serial normalize_mqtt_host
derived = (refl, refl)

-- A host with a port but without a scheme keeps its port.
port_kept : normalize_mqtt_host gateway "broker:1883" ≡ "broker:1883"
unfolding normalize_mqtt_host
port_kept = refl

load-Loaded_example : Loaded gateway (load gateway)
load-Loaded_example = load-Loaded gateway
