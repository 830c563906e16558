-- ===== src/Recovery/Sync.antt =====
-- The live credentials follow the credential file
-- (smart-home-agent/internal/agent/agent.go, claim.go, webui.go).
use smart_home_edge.Prelude.{◌≡◌, ℕ, refl, sym, subst, none, some, List}
use smart_home_edge.Provision.{Credentials, Disk, Result, ok, err}
use smart_home_edge.Recovery.{
  Identity, Surroundings, taken_over, trigger_reconnect, apply_recovered_credentials,
}
use smart_home_edge.Recovery.Connect.{Call, perform_all}
use smart_home_edge.Recovery.Keeps.{Stored, perform_all_keeps}

-- The secrets in memory are those in the file.
unfoldable pub Matches : Credentials → Disk → Type 0
Matches c none = Unit
Matches c (some stored) =
    (c.mqtt_username ≡ stored.mqtt_username)
    × (c.mqtt_password ≡ stored.mqtt_password)
    × (c.provision_token ≡ stored.provision_token)
    × (c.claim_status ≡ stored.claim_status)
    × (c.claim_code ≡ stored.claim_code)
    × (c.claim_code_expires_at ≡ stored.claim_code_expires_at)

unfoldable pub InStep : Identity → Type 0
InStep s = Matches s.creds s.disk

taken_over-InStep :
    (takes : ℕ) (s : Identity) (r : Disk × Result Credentials)
    → Stored s.disk r
    → InStep s
    → InStep (taken_over takes s r)
unfolding Stored InStep Matches apply_recovered_credentials
taken_over-InStep takes s (after, ok c) e h =
    subst (λ d. Matches (apply_recovered_credentials s.creds c) d) (sym e)
      (refl, refl, refl, refl, refl, refl)
taken_over-InStep takes s (after, err e') e h = subst (λ d. Matches s.creds d) (sym e) h

-- Under any sequence of connect loops, recoveries, reissues and panel actions, whatever the cloud
-- and the broker answer and whatever writes fail, the live user name, password, provision token,
-- claim status, claim code and expiry are those in the credential file, whenever there is a file,
-- when this is so at first.
pub perform_all-InStep :
    (env : Surroundings) (s : Identity) (cs : List Call) → InStep s → InStep (perform_all env s cs)
unfolding InStep trigger_reconnect
perform_all-InStep env s cs h =
    perform_all_keeps env InStep (λ now t k. k) (λ n t k. k) (λ t k. k) (λ t k. k) taken_over-InStep
      s cs h
