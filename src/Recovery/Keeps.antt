-- ===== src/Recovery/Keeps.antt =====
-- What the parts of the calls on the credentials keep, every sequence of calls keeps
-- (smart-home-agent/internal/agent/agent.go, claim.go, webui.go).
use smart_home_edge.Prelude.{
  ℕ, ◌+◌, ◌≡◌, Bool, true, false, not, ◌&&◌, none, some, List, [], ◌∷◌, refl, ltb, ◌==◌,
  if◌then◌else◌,
}
use smart_home_edge.Provision.{Credentials, Disk, Result, ok, err, reissue_claim_code}
use smart_home_edge.Provision.Secrets.{
  Outcome, recover-Outcome, Reissued, reissue_claim_code-Reissued,
}
use smart_home_edge.Recovery.{
  Identity, Surroundings, Notice, shown, dismissed, tell, taken_over, attempting, cooled, recovered,
  reissued, cycled, claim_code_expired, surface_claim_code, dismiss_claim_notification,
  ensure_claim_code, surface_claim_status, provision_meta, recover_credentials, reissue_now,
  trigger_reconnect, reprovision,
}
use smart_home_edge.Recovery.Connect.{
  Call, surfacing, reissuing, reprovisioning, connecting, idling, at, connect_broker_keeps, perform,
  perform_all,
}

-- What is returned has been stored, and nothing else has.
unfoldable pub Stored : Disk → Disk × Result Credentials → Type 0
Stored disk (after, ok c) = after ≡ some c
Stored disk (after, err e) = after ≡ disk

Stored-Outcome : (disk : Disk) (r : Disk × Result Credentials) → Outcome disk r → Stored disk r
unfolding Stored Outcome
Stored-Outcome disk (after, ok c) h = h.0
Stored-Outcome disk (after, err e) h = h

Stored-Reissued :
    (old : Credentials) (r : Disk × Result Credentials) → Reissued old r → Stored (some old) r
unfolding Stored Reissued
Stored-Reissued old (after, ok c) h = h.0
Stored-Reissued old (after, err e) h = h

module _ {ℓ} (env : Surroundings) (P : Identity → Type ℓ)
    (clock : (now : ℕ) (s : Identity) → P s → P (at now s))
    (notice : (n : Notice) (s : Identity) → P s → P (tell n s))
    (request : (s : Identity) → P s → P (trigger_reconnect env s))
    (attempt : (s : Identity) → P s → P (attempting env s (cooled env s.clock s.last_recover)))
    (change : (takes : ℕ) (s : Identity) (r : Disk × Result Credentials)
      → Stored s.disk r
      → P s
      → P (taken_over takes s r)) where
  if_keeps : (t : Bool) (x y : Identity) → P x → P y → P (if t then x else y)
  if_keeps true x y h k = h
  if_keeps false x y h k = k

  if_keeps_first :
      {A : Type 0} (t : Bool) (x y : Identity × A) → P x.0 → P y.0 → P (if t then x else y).0
  if_keeps_first true x y h k = h
  if_keeps_first false x y h k = k

  surface_claim_code_keeps : (s : Identity) → P s → P (surface_claim_code env s)
  unfolding surface_claim_code
  surface_claim_code_keeps s h =
      if_keeps (not env.home_assistant) _ _ h
        (if_keeps (s.creds.claim_code == "") _ _ h (notice (shown s.creds.claim_code) s h))

  reissue_claim_code-Stored :
      (s : Identity) → Stored s.disk (reissue_claim_code (env.cloud s.clock) s.disk)
  unfolding Stored reissue_claim_code
  reissue_claim_code-Stored s = on s.disk
    where
      on : (disk : Disk) → Stored disk (reissue_claim_code (env.cloud s.clock) disk)
      on none = refl
      on (some old) = Stored-Reissued old _ (reissue_claim_code-Reissued (env.cloud s.clock) old)

  surface_claim_status_keeps :
      (claimed : Bool) (s : Identity) → P s → P (surface_claim_status env claimed s)
  unfolding surface_claim_status ensure_claim_code dismiss_claim_notification claim_code_expired
  surface_claim_status_keeps claimed s h = if_keeps (not env.home_assistant) _ _ h (
      if_keeps claimed _ _ (if_keeps (not env.home_assistant) _ _ h (notice dismissed s h)) (
        surface_claim_code_keeps _ (
          if_keeps (not env.provisioning) _ _ h (
            if_keeps
              (not (s.creds.claim_code == "")
                && not (claim_code_expired env s.clock s.creds.claim_code_expires_at))
              _ _ h (change (env.takes s.clock) s _ (reissue_claim_code-Stored s) h)))))

  recovered_keeps :
      (s : Identity) (r : Disk × Result Credentials)
      → Stored s.disk r
      → P s
      → P (recovered env s r).0
  recovered_keeps s (disk, ok c) e h =
      let k = change (env.takes s.clock) s (disk, ok c) e h in
      if_keeps (c.claim_status == "claimed") _ _ k (surface_claim_code_keeps _ k)
  recovered_keeps s (disk, err e') e h = change (env.takes s.clock) s (disk, err e') e h

  recover_credentials_keeps : (s : Identity) → P s → P (recover_credentials env s).0
  unfolding recover_credentials
  recover_credentials_keeps s h =
      let now = cooled env s.clock s.last_recover in
      if_keeps_first (ltb s.clock now && env.done_by now) _ _ (clock now s h) (
        recovered_keeps (attempting env s now) _
          (Stored-Outcome s.disk _
            (recover-Outcome env.settings (provision_meta env now) (env.cloud now) s.disk))
          (attempt s h))

  reissued_keeps :
      (s : Identity) (r : Disk × Result Credentials)
      → Stored s.disk r
      → P s
      → P (reissued env s r).0
  reissued_keeps s (disk, ok c) e h =
      surface_claim_code_keeps _ (change (env.takes s.clock) s (disk, ok c) e h)
  reissued_keeps s (disk, err e') e h = change (env.takes s.clock) s (disk, err e') e h

  cycled_keeps : (r : Identity × Bool) → P r.0 → P (cycled env r).0
  cycled_keeps (s, true) h = request s h
  cycled_keeps (s, false) h = h

  perform_keeps : (s : Identity) (c : Call) → P s → P (perform env s c)
  unfolding perform reissue_now reprovision
  perform_keeps s (surfacing claimed) h = surface_claim_status_keeps claimed s h
  perform_keeps s (reissuing claimed) h = if_keeps_first claimed _ _ h (
      if_keeps_first (not env.provisioning) _ _ h
        (reissued_keeps s _ (reissue_claim_code-Stored s) h))
  perform_keeps s reprovisioning h = cycled_keeps _ (recover_credentials_keeps s h)
  perform_keeps s (connecting fuel backoff) h =
      connect_broker_keeps env P clock recover_credentials_keeps fuel backoff s h
  perform_keeps s (idling time) h = clock (s.clock + time) s h

  pub perform_all_keeps : (s : Identity) (cs : List Call) → P s → P (perform_all env s cs)
  unfolding perform_all
  perform_all_keeps s [] h = h
  perform_all_keeps s (c ∷ cs) h = perform_all_keeps (perform env s c) cs (perform_keeps s c h)
