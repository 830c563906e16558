-- ===== src/Tests/Recovering.antt =====
-- The agent with a stale password, before a cloud that rotates it.
use smart_home_edge.Prelude.{
  ◌≡◌, refl, ◌≤◌, ℕ, true, false, none, some, [], ◌∷◌, List, pos, leb, arith, ◌==◌, if◌then◌else◌,
}
use smart_home_edge.Provision.{is_usable, recover, reissue_claim_code}
use smart_home_edge.Recovery.{Identity, Surroundings, accepted, auth_rejected, provision_meta}
use smart_home_edge.Recovery.Connect.{
  Call, connecting, reprovisioning, surfacing, reissuing, perform_all, connect_broker, cool_down,
}
use smart_home_edge.Recovery.Sync.{Matches, InStep, perform_all-InStep}
use smart_home_edge.Recovery.Cooldown.{Spaced, perform_all-Spaced}
use smart_home_edge.Recovery.Measure.{Earlier}
use smart_home_edge.Recovery.Deadline.{Ended, connect_broker-Ended}
use smart_home_edge.Recovery.Healing.{connect_broker_heals}
use smart_home_edge.Tests.Provisioning.{stored, rotating, settings}

abbrev stale : Surroundings
stale = record {
  provisioning = true;
  home_assistant = true;
  settings = settings;
  agent_version = "1";
  ha_version = λ t. "2026.1";
  cloud = λ t. rotating;
  takes = λ t. 2000;
  broker = λ t user password. if password == "new" then accepted else auth_rejected;
  dial_takes = λ t. 500;
  done_by = λ t. leb 100000000000 t;
  wall_time = λ t. pos t;
  parse_rfc3339 = λ s. none;
}

abbrev booted : Identity
booted = record {
  creds = stored;
  disk = some stored;
  clock = 0;
  last_recover = none;
  reconnect = false;
  notices = [];
  recoveries = [];
}

abbrev calls : List Call
calls = connecting 3 1000000000 ∷ reprovisioning ∷ surfacing false ∷ reissuing false ∷ []

perform_all-InStep_example : InStep (perform_all stale booted calls)
unfolding InStep Matches
perform_all-InStep_example =
    perform_all-InStep stale booted calls (refl, refl, refl, refl, refl, refl)

perform_all-Spaced_example : Spaced (perform_all stale booted calls).recoveries
perform_all-Spaced_example = perform_all-Spaced stale booted calls refl refl

-- The second recovery waits for the cool-down.
second_recovery : (perform_all stale booted calls).recoveries ≡ 30000000500 ∷ 500 ∷ []
unfolding perform_all recover is_usable reissue_claim_code
second_recovery = refl

past_deadline : (t : ℕ) → 100000000000 ≤ t → leb 100000000000 t ≡ true
past_deadline t h = ground arith

connect_broker-Ended_example : Ended (connect_broker stale 206 1000000000 booted)
unfolding Earlier
connect_broker-Ended_example =
    connect_broker-Ended stale 100000000000 past_deadline 206 1000000000 booted (omega arith)
      (omega arith) tt (omega arith)

connect_broker_heals_example :
    ((connect_broker stale 2 1000000000 booted).1 ≡ [])
    × ((connect_broker stale 2 1000000000 booted).2 ≡ some true)
    × ((connect_broker stale 2 1000000000 booted).0.creds.mqtt_username ≡ "gw")
    × ((connect_broker stale 2 1000000000 booted).0.creds.mqtt_password ≡ "new")
unfolding recover is_usable provision_meta cool_down
connect_broker_heals_example =
    connect_broker_heals stale booted 1000000000 (some (record stored { mqtt_password = "new" }))
      (record stored { mqtt_password = "new" }) refl refl refl refl refl refl
