-- ===== src/Configuration/Sources.antt =====
-- What a loaded configuration has (smart-home-agent/internal/config/config.go: `Load`).
use Prim.Native.String.{◌++◌}
use Prim.Native.Char.{Char}
use text.Mathlib.TextLemmas.{cons≢nil}
use text.Mathlib.TextLemmas.{cons-append}
use smart_home_edge.Prelude.{
  ℤ, pos, ◌≡◌, ◌≢◌, ◌⊎◌, inl, inr, refl, sym, ap, ◌∙◌, String, Bool, true, false, not, Option, none,
  some, [], ◌∷◌, ltb_ℤ, ◌==◌, if◌then◌else◌, text-cases,
}
use smart_home_edge.Configuration.{
  Config, Machine, Missing, mqtt_host, first_non_empty, first_positive, bool_pref, validate,
  normalize_mqtt_host, host_serial, read_pi_serial, resolve_serial, or_resolved, resolved, checked,
  data_dir_of, options_of, load, env_or, env_int, env_bool,
}

nonempty : (c : String) → c ≢ "" → (c == "") ≡ false
nonempty c h = elim (text-cases c "") [ inl e ↦ absurd (h e) | inr n ↦ n.1 ]

-- A prefix keeps a text from being empty.
prefixed-ne : (c : Char) (p s : String) → (String.◌∷◌ c p ++ s) ≢ ""
prefixed-ne c p s e = cons≢nil (sym (cons-append c p s) ∙ e)

module _ (machine : Machine) where
  host_serial-ne : (o : Option String) → (host_serial machine o == "") ≡ false
  host_serial-ne none = refl
  host_serial-ne (some host) = if_named (not (host == ""))
    where
      if_named : (b : Bool) → ((if b then "host-" ++ host else "unknown-serial") == "") ≡ false
      if_named true = nonempty ("host-" ++ host) (prefixed-ne _ "ost-" host)
      if_named false = refl

  resolve_serial-ne : (resolve_serial machine == "") ≡ false
  unfolding resolve_serial
  resolve_serial-ne = if_read (not (read_pi_serial machine == ""))
    where
      if_read :
          (b : Bool)
          → ((if b then "pi-" ++ read_pi_serial machine else host_serial machine machine.hostname)
              == "")
            ≡ false
      if_read true =
          nonempty ("pi-" ++ read_pi_serial machine) (prefixed-ne _ "i-" (read_pi_serial machine))
      if_read false = host_serial-ne machine.hostname

  or_resolved-ne : (serial : String) → (or_resolved machine serial == "") ≡ false
  or_resolved-ne serial = if_given (serial == "") refl
    where
      if_given :
          (b : Bool)
          → (serial == "") ≡ b
          → ((if b then resolve_serial machine else serial) == "") ≡ false
      if_given true e = resolve_serial-ne
      if_given false e = e

  -- The option where it is set, and otherwise the fallback.
  abbrev pub Preferred : (option fallback value : String) → Type 0
  Preferred option fallback value =
      ((option == "") ≡ false → value ≡ option) × (option ≡ "" → value ≡ fallback)

  preferred_lem :
      (option fallback : String)
      → Preferred option fallback (first_non_empty (option ∷ fallback ∷ []))
  unfolding first_non_empty
  preferred_lem option fallback = (
    (λ set.
        ap (λ b. if not b then option else (if not (fallback == "") then fallback else "")) set),
    (λ unset. rw unset (last_lem fallback)),
  )
    where
      last_lem : (s : String) → (if not (s == "") then s else "") ≡ s
      last_lem s = elim (text-cases s "") [ inl e ↦ rw e refl | inr n ↦ rw n.1 refl ]

  -- The broker's host, from the options or the environment.
  abbrev pub wanted_host : String
  wanted_host =
      normalize_mqtt_host machine
        (first_non_empty ((options_of machine).mqtt_host ∷ machine.getenv "MQTT_HOST" ∷ []))

  unfoldable pub Loaded : Missing ⊎ Config → Type 0
  Loaded (inl missing) = wanted_host ≡ ""
  Loaded (inr c) =
      (c.mqtt_host ≡ wanted_host)
      × ((c.mqtt_host == "") ≡ false)
      × ((c.serial == "") ≡ false)
      × (((options_of machine).serial == "") ≡ false → c.serial ≡ (options_of machine).serial)
      × (ltb_ℤ (pos 0) (options_of machine).mqtt_port ≡ true
          → c.mqtt_port ≡ (options_of machine).mqtt_port)
      × Preferred (options_of machine).cloud_base_url (machine.getenv "CLOUD_BASE_URL")
          c.cloud_base_url
      × Preferred (options_of machine).factory_key (machine.getenv "FACTORY_KEY") c.factory_key
      × Preferred (options_of machine).log_level (env_or machine "LOG_LEVEL" "info") c.log_level
      × ((b : Bool) → (options_of machine).mqtt_tls ≡ some b → c.mqtt_tls ≡ b)
      × ((b : Bool) → (options_of machine).mqtt_tls_insecure ≡ some b → c.mqtt_tls_insecure ≡ b)

  option_serial :
      (serial fallback : String)
      → (serial == "") ≡ false
      → or_resolved machine (first_non_empty (serial ∷ fallback ∷ [])) ≡ serial
  unfolding first_non_empty
  option_serial serial fallback h =
      ap
        (λ b.
          or_resolved machine
            (if not b then serial else (if not (fallback == "") then fallback else "")))
        h
      ∙ ap (λ b. if b then resolve_serial machine else serial) h

  option_port :
      (port fallback : ℤ) → ltb_ℤ (pos 0) port ≡ true → first_positive (port ∷ fallback ∷ []) ≡ port
  unfolding first_positive
  option_port port fallback h =
      ap (λ b. if b then port else (if ltb_ℤ (pos 0) fallback then fallback else pos 0)) h

  option_bool : (o : Option Bool) (fallback b : Bool) → o ≡ some b → bool_pref o fallback ≡ b
  unfolding bool_pref
  option_bool o fallback b h = ap (λ p. bool_pref p fallback) h

  -- Loading fails only where the broker's host, from the options or the environment and normalized,
  -- is empty. A configuration that is loaded has that host and a serial that is not empty, and
  -- keeps what the options set: a serial that is not empty, a positive port, both TLS switches,
  -- also where they are set to false, and the cloud's URL, the factory key and the log level where
  -- they are not empty; these three come from the environment, the log level with a default, where
  -- the options leave them empty.
  pub load-Loaded : Loaded (load machine)
  unfolding load Loaded validate
  load-Loaded = of_test (wanted_host == "") refl
    where
      cfg : Config
      cfg = resolved machine (options_of machine) (data_dir_of machine)

      of_test :
          (b : Bool)
          → (wanted_host == "") ≡ b
          → Loaded (checked machine cfg (if b then some mqtt_host else none))
      of_test true e = elim (text-cases wanted_host "") [ inl h ↦ h | inr n ↦ absurd (cc (e, n.1)) ]
      of_test false e = (
        refl,
        e,
        or_resolved-ne
            (first_non_empty ((options_of machine).serial ∷ machine.getenv "GATEWAY_SERIAL" ∷ [])),
        option_serial (options_of machine).serial (machine.getenv "GATEWAY_SERIAL"),
        option_port (options_of machine).mqtt_port (env_int machine "MQTT_PORT" (pos 8883)),
        preferred_lem (options_of machine).cloud_base_url (machine.getenv "CLOUD_BASE_URL"),
        preferred_lem (options_of machine).factory_key (machine.getenv "FACTORY_KEY"),
        preferred_lem (options_of machine).log_level (env_or machine "LOG_LEVEL" "info"),
        option_bool (options_of machine).mqtt_tls (env_bool machine "MQTT_TLS" true),
        option_bool (options_of machine).mqtt_tls_insecure
            (env_bool machine "MQTT_TLS_INSECURE" false),
      )
