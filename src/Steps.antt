-- ===== src/Steps.antt =====
-- The onboarding steps' device and shared state (smart-home-agent/internal/onboard/device.go,
-- devaddon.go). `D` is the gateway as the CLI's calls see and change it; what a reporter prints is
-- left out, and durations are nanoseconds from zero up.
pub mod Actions
pub mod Options
pub mod Merge
pub mod Repositories
pub mod Account
pub mod Addons
pub mod Radio
pub mod Agent
pub mod Build
pub mod Rules
pub mod Awaiting
pub mod Outcome
use smart_home_edge.Prelude.{
  ℕ, ℤ, String, Bool, Option, List, [], ◌∷◌, ◌++◌, Dict, not, ◌==◌, if◌then◌else◌,
}
use smart_home_edge.Json.{Json, str}
use smart_home_edge.Fleet.{Addon, Manifest, agent_match}
use smart_home_edge.Supervisor.{AddonInfo}

pub record OnboardingStatus : Type 0 where
  pub user_done : Bool
  pub all_done : Bool

pub record ClaimInfo : Type 0 where
  pub uid : String
  pub serial : String
  pub claimed : Bool
  pub claim_code : String

pub record OwnerConfig : Type 0 where
  pub name : String
  pub username : String
  pub password : String
  pub language : String

pub record CoreConfig : Type 0 where
  pub country : String
  pub time_zone : String
  pub currency : String
  pub unit_system : String
  pub language : String

abbrev named : String → String → Dict Json
named key value = if not (value == "") then (key, str value) ∷ [] else []

-- Only the keys that are set.
unfoldable pub fields : CoreConfig → Dict Json
fields c =
    named "country" c.country
    ++ (named "time_zone" c.time_zone
        ++ (named "currency" c.currency
            ++ (named "unit_system" c.unit_system ++ named "language" c.language)))

pub record Timeouts : Type 0 where
  pub wait_core : ℕ
  pub wait_provision : ℕ

pub record ZigbeeConfig : Type 0 where
  pub port : String
  pub adapter : String
  pub baudrate : ℤ

abbrev pub local_agent_slug : String
local_agent_slug = "local_smart_home_agent"

unfoldable pub is_agent_addon : Addon → Bool
is_agent_addon a = a.match == agent_match

-- The errors that the steps make, and those of a call on the device.
pub data Problem : Type 0 where
  device : String → Problem
  cancelled : Problem
  no_token no_owner : Problem
  repository_missing : Problem
  not_in_store not_installed : (addon : String) → Problem
  installing : (addon : String) → Problem → Problem
  no_local_agent no_agent_addon agent_not_in_store : Problem
  broker_not_installed broker_not_started : Problem
  no_zigbee_addon zigbee_not_in_store zigbee_unresolved : Problem
  zigbee_not_persisted zigbee_not_started : Problem
  agent_not_persisted agent_not_started : Problem
  not_provisioned no_uid : Problem
  not_provisioned_after : Problem → Problem
  -- the model's own: the rounds of the waiting loop are used up
  out_of_rounds : Problem

pub data Answer (A : Type 0) : Type 0 where
  ok : A → Answer A
  err : Problem → Answer A

-- The interface that the steps use the gateway through. A slug that is not found is `none`.
pub record DeviceApi (D : Type 0) : Type 0 where
  pub wait_for_core : (timeout : ℕ) → D → Answer (Unit {0}) × D
  pub onboarding_status : D → Answer OnboardingStatus × D
  pub create_owner : OwnerConfig → D → Answer String × D
  pub login : (username password : String) → D → Answer String × D
  pub exchange_code : (auth_code : String) → D → Answer String × D
  pub create_long_lived_token : (access_token client_name : String) → D → Answer String × D
  pub finish_onboarding : D → Answer (Unit {0}) × D
  pub update_core_config : CoreConfig → D → Answer (Unit {0}) × D
  pub set_token : String → D → D
  pub token : D → String
  pub store_repositories : D → Answer (List String) × D
  pub add_store_repository : (url : String) → D → Answer (Unit {0}) × D
  pub resolve_addon_slug : Addon → D → Answer (Option String) × D
  pub addon_info : (slug : String) → D → Answer AddonInfo × D
  pub install_addon : (timeout : ℕ) (slug : String) → D → Answer (Unit {0}) × D
  pub set_addon_options : (slug : String) → Dict Json → D → Answer (Unit {0}) × D
  pub start_addon : (slug : String) → D → Answer (Unit {0}) × D
  pub restart_addon : (slug : String) → D → Answer (Unit {0}) × D
  pub claim_info : (agent_slug : String) → D → Answer ClaimInfo × D

-- The device with the clock, which a context may cut short, and Go's functions on texts and JSON.
pub record Host (D : Type 0) : Type 0 where
  pub api : DeviceApi D
  pub sleep : ℕ → D → Answer (Unit {0}) × D
  pub now : D → ℕ
  pub trim_space : String → String
  pub to_lower : String → String
  -- `json.Marshal`; `none` is an error
  pub marshal : Json → Option String
  pub decimal : ℤ → String

pub record State (D : Type 0) : Type 0 where
  pub client : D
  pub manifest : Manifest
  pub owner : OwnerConfig
  pub core_config : CoreConfig
  pub agent_options : Dict Json
  pub zigbee : ZigbeeConfig
  pub timeouts : Timeouts
  pub dev : Bool
  -- accumulated during the run
  pub access_token : String
  pub agent_slug : String
  pub claim : ClaimInfo
