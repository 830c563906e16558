-- ===== src/Recovery.antt =====
-- The gateway's live credentials: the claim code and its surfacing
-- (smart-home-agent/internal/agent/claim.go), the recovery of rejected credentials and the connect
-- loop (agent.go: `recoverCredentials`, `applyRecoveredCredentials`, `connectBroker`), and the
-- panel's actions on them (webui.go). Time is a clock in nanoseconds that only waits and calls move.
pub mod Connect
pub mod Keeps
pub mod Sync
pub mod Cooldown
pub mod Measure
pub mod Deadline
pub mod Healing
use smart_home_edge.Prelude.{
  ℕ, zero, suc, ◌+◌, ◌*◌, String, Bool, true, false, not, ◌&&◌, Option, none, some, List, [], ◌∷◌,
  ℤ, ltb, ltb_ℤ, ◌==◌, if◌then◌else◌,
}
use smart_home_edge.Provision.{
  Credentials, Settings, Metadata, Cloud, Disk, Result, ok, err, recover, reissue_claim_code,
}
use smart_home_edge.Agent.{Agent, World}
use smart_home_edge.Agent.Config.{on_unclaimed_task}

-- What Home Assistant's notification of the claim code was told.
pub data Notice : Type 0 where
  shown : (claim_code : String) → Notice
  dismissed : Notice

pub record Identity : Type 0 where
  pub creds : Credentials
  -- the credential file
  pub disk : Disk
  pub clock : ℕ
  -- `none` for the zero time
  pub last_recover : Option ℕ
  -- the pending request of the channel `reconnect`
  pub reconnect : Bool
  -- newest first
  pub notices : List Notice
  -- when each recovery was tried, newest first
  pub recoveries : List ℕ

pub data Verdict : Type 0 where
  accepted auth_rejected unreachable : Verdict

pub record Surroundings : Type 0 where
  -- `a.prov != nil` and `a.ha != nil`
  pub provisioning : Bool
  pub home_assistant : Bool
  pub settings : Settings
  pub agent_version : String
  pub ha_version : ℕ → String
  -- the cloud that a call at a time meets, and how long that call takes
  pub cloud : ℕ → Cloud
  pub takes : ℕ → ℕ
  -- what the broker says to a user name and a password
  pub broker : ℕ → String → String → Verdict
  -- how long an attempt to connect takes
  pub dial_takes : ℕ → ℕ
  -- whether the context is done at a time
  pub done_by : ℕ → Bool
  pub wall_time : ℕ → ℤ
  pub parse_rfc3339 : String → Option ℤ

-- The uid, the serial and the rest stay.
unfoldable pub apply_recovered_credentials : Credentials → Credentials → Credentials
apply_recovered_credentials creds new = record creds {
  mqtt_username = new.mqtt_username;
  mqtt_password = new.mqtt_password;
  provision_token = new.provision_token;
  claim_status = new.claim_status;
  claim_code = new.claim_code;
  claim_code_expires_at = new.claim_code_expires_at;
}

abbrev pub recover_cooldown : ℕ
recover_cooldown = 30000000000

abbrev pub tell : Notice → Identity → Identity
tell n s = record s { notices = n ∷ s.notices }

-- The file as the call left it, and the live credentials when it succeeded.
abbrev pub taken_over : ℕ → Identity → Disk × Result Credentials → Identity
taken_over takes s (disk, ok c) = record s {
  disk = disk;
  creds = apply_recovered_credentials s.creds c;
  clock = s.clock + takes;
}
taken_over takes s (disk, err e) = record s { disk = disk; clock = s.clock + takes }

module _ (env : Surroundings) where
  abbrev past : ℤ → Option ℤ → Bool
  past now none = false
  past now (some t) = ltb_ℤ t now

  -- A missing or malformed expiry does not expire.
  unfoldable pub claim_code_expired : ℕ → String → Bool
  claim_code_expired now expires =
      if expires == "" then false else past (env.wall_time now) (env.parse_rfc3339 expires)

  abbrev pub reissue : Identity → Identity
  reissue s = taken_over (env.takes s.clock) s (reissue_claim_code (env.cloud s.clock) s.disk)

  unfoldable pub ensure_claim_code : Identity → Identity
  unfolding claim_code_expired apply_recovered_credentials
  ensure_claim_code s =
      if not env.provisioning
      then s
      else if not (s.creds.claim_code == "")
          && not (claim_code_expired s.clock s.creds.claim_code_expires_at)
      then s
      else reissue s

  unfoldable pub surface_claim_code : Identity → Identity
  surface_claim_code s =
      if not env.home_assistant
      then s
      else if s.creds.claim_code == ""
      then s
      else tell (shown s.creds.claim_code) s

  unfoldable pub dismiss_claim_notification : Identity → Identity
  dismiss_claim_notification s = if not env.home_assistant then s else tell dismissed s

  unfoldable pub surface_claim_status : Bool → Identity → Identity
  unfolding ensure_claim_code surface_claim_code dismiss_claim_notification
  surface_claim_status claimed s =
      if not env.home_assistant
      then s
      else if claimed
      then dismiss_claim_notification s
      else surface_claim_code (ensure_claim_code s)

  -- The goroutine that an unclaim starts.
  unfoldable pub on_unclaimed : World → Agent → Identity → Agent × Identity
  unfolding on_unclaimed_task surface_claim_status
  on_unclaimed w a s = (on_unclaimed_task w a, surface_claim_status a.claimed s)

  unfoldable pub provision_meta : ℕ → Metadata
  provision_meta now = record {
    ha_version = env.ha_version now;
    agent_version = env.agent_version;
    os_version = "";
  }

  -- When the cool-down of the last recovery is over.
  abbrev pub cooled : ℕ → Option ℕ → ℕ
  cooled now none = now
  cooled now (some last) =
      if ltb now (last + recover_cooldown) then last + recover_cooldown else now

  abbrev pub surfaced_unless_claimed : Credentials → Identity → Identity
  surfaced_unless_claimed c s = if c.claim_status == "claimed" then s else surface_claim_code s

  abbrev pub recovered : Identity → Disk × Result Credentials → Identity × Bool
  recovered s (disk, ok c) =
      (surfaced_unless_claimed c (taken_over (env.takes s.clock) s (disk, ok c)), true)
  recovered s (disk, err e) = (taken_over (env.takes s.clock) s (disk, err e), false)

  -- The wait is over: the attempt is noted before it is made.
  abbrev pub attempting : Identity → ℕ → Identity
  attempting s now = record s {
    clock = now;
    last_recover = some now;
    recoveries = now ∷ s.recoveries;
  }

  -- The context is asked only where there is a wait; one that is cut short counts in full.
  unfoldable pub recover_credentials : Identity → Identity × Bool
  unfolding provision_meta surface_claim_code apply_recovered_credentials
  recover_credentials s =
      let now = cooled s.clock s.last_recover in
      if ltb s.clock now && env.done_by now
      then (record s { clock = now }, false)
      else recovered (attempting s now)
          (recover env.settings (provision_meta now) (env.cloud now) s.disk)

  pub data PanelError : Type 0 where
    already_claimed no_provisioning not_reissued not_recovered : PanelError

  abbrev pub reissued : Identity → Disk × Result Credentials → Identity × Option PanelError
  reissued s (disk, ok c) =
      (surface_claim_code (taken_over (env.takes s.clock) s (disk, ok c)), none)
  reissued s (disk, err e) = (taken_over (env.takes s.clock) s (disk, err e), some not_reissued)

  -- The panel's action.
  unfoldable pub reissue_now : Bool → Identity → Identity × Option PanelError
  unfolding surface_claim_code apply_recovered_credentials
  reissue_now claimed s =
      if claimed
      then (s, some already_claimed)
      else if not env.provisioning
      then (s, some no_provisioning)
      else reissued s (reissue_claim_code (env.cloud s.clock) s.disk)

  -- A request that is pending already is not queued twice.
  unfoldable pub trigger_reconnect : Identity → Identity
  trigger_reconnect s = record s { reconnect = true }

  abbrev pub cycled : Identity × Bool → Identity × Option PanelError
  cycled (s, true) = (trigger_reconnect s, none)
  cycled (s, false) = (s, some not_recovered)

  unfoldable pub reprovision : Identity → Identity × Option PanelError
  unfolding recover_credentials trigger_reconnect
  reprovision s = cycled (recover_credentials s)
