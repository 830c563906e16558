-- ===== src/Recovery/Healing.antt =====
-- A stale password heals (smart-home-agent/internal/agent/agent.go: `connectBroker`).
use mathlib.Core.List.{append-nil}
use smart_home_edge.Prelude.{
  ◌≡◌, refl, ap, ◌∙◌, ◌+◌, ℕ, none, some, [], Bool, true, false, ltb, ◌&&◌, ◌==◌, not,
  if◌then◌else◌, ◌++◌,
}
use smart_home_edge.Provision.{Credentials, Disk, ok, recover}
use smart_home_edge.Recovery.{
  Identity, Surroundings, Verdict, accepted, auth_rejected, unreachable, cooled,
  apply_recovered_credentials, attempting, recovered, recover_credentials, surface_claim_code,
  provision_meta, tell, shown,
}
use smart_home_edge.Recovery.Connect.{
  Connecting, connect_broker, judged, after_recovery, after_waits, cool_down, dialled,
  next_connect_backoff, connect_initial_backoff,
}

module _ (env : Surroundings) where
  -- The identity as the recovery left it, but for what was shown.
  Held : Identity → Credentials → ℕ → Type 0
  Held s c now =
      (s.creds.mqtt_username ≡ c.mqtt_username)
      × (s.creds.mqtt_password ≡ c.mqtt_password)
      × (s.clock ≡ now)

  shown-Held :
      (s : Identity) (c : Credentials) (now : ℕ)
      → Held s c now
      → Held (surface_claim_code env s) c now
  unfolding surface_claim_code Held
  shown-Held s c now h = if_here env.home_assistant
    where
      if_code : (t : Bool) → Held (if t then s else tell (shown s.creds.claim_code) s) c now
      if_code true = h
      if_code false = h

      if_here :
          (here : Bool)
          → Held
              (if not here
                then s
                else if s.creds.claim_code == ""
                then s
                else tell (shown s.creds.claim_code) s)
              c
              now
      if_here false = h
      if_here true = if_code (s.creds.claim_code == "")

  recovered-Held :
      (s : Identity) (disk : Disk) (c : Credentials)
      → Held (recovered env s (disk, ok c)).0 c (s.clock + env.takes s.clock)
  unfolding Held apply_recovered_credentials
  recovered-Held s disk c = if_kept (c.claim_status == "claimed") _ (refl, refl, refl)
    where
      if_kept :
          (t : Bool) (x : Identity)
          → Held x c (s.clock + env.takes s.clock)
          → Held (if t then x else surface_claim_code env x) c (s.clock + env.takes s.clock)
      if_kept true x h = h
      if_kept false x h = shown-Held x c _ h

  accepted_lem :
      (s : Identity) (b : ℕ)
      → env.done_by s.clock ≡ false
      → env.broker s.clock s.creds.mqtt_username s.creds.mqtt_password ≡ accepted
      → connect_broker env 1 b s ≡ (dialled env s, [], some true)
  unfolding connect_broker
  accepted_lem s b going welcome = by_verdict (env.done_by s.clock) _ going welcome
    where
      by_verdict :
          (t : Bool) (v : Verdict)
          → t ≡ false
          → v ≡ accepted
          → (if t
              then (s, [], some false)
              else judged env v b
                  (dialled env s)
                  (λ next. (next, [], none))
                  (λ next. (next, [], none)))
            ≡ (dialled env s, [], some true)
      by_verdict true v h k = absurd (cc h)
      by_verdict false accepted h k = refl
      by_verdict false auth_rejected h k = absurd (cc k)
      by_verdict false unreachable h k = absurd (cc k)

  -- The time at which a recovery asks the cloud.
  abbrev pub asks_at : Identity → ℕ
  asks_at s = cooled env s.clock s.last_recover

  recover_credentials-ok :
      (s : Identity) (disk : Disk) (c : Credentials)
      → env.done_by (asks_at s) ≡ false
      → recover env.settings (provision_meta env (asks_at s)) (env.cloud (asks_at s)) s.disk
        ≡ (disk, ok c)
      → recover_credentials env s ≡ recovered env (attempting env s (asks_at s)) (disk, ok c)
  unfolding recover_credentials
  recover_credentials-ok s disk c going answered =
      guarded (ltb s.clock (asks_at s)) (env.done_by (asks_at s)) _ _ going
      ∙ ap (λ r. recovered env (attempting env s (asks_at s)) r) answered
    where
      guarded : (t d : Bool) (x y : Identity × Bool) → d ≡ false → (if t && d then x else y) ≡ y
      guarded true true x y h = absurd (cc h)
      guarded true false x y h = refl
      guarded false d x y h = refl

  retried_lem :
      (s : Identity) (b : ℕ) (rest later : Identity → Connecting)
      → env.done_by s.clock ≡ false
      → env.broker s.clock s.creds.mqtt_username s.creds.mqtt_password ≡ auth_rejected
      → (if env.done_by s.clock
          then (s, [], some false)
          else judged env
              (env.broker s.clock s.creds.mqtt_username s.creds.mqtt_password)
              b
              (dialled env s)
              rest
              later)
        ≡ after_waits env
            (cool_down env (dialled env s))
            (after_recovery env b (recover_credentials env (dialled env s)) rest later)
  retried_lem s b rest later going stale = by_verdict (env.done_by s.clock) _ going stale
    where
      by_verdict :
          (t : Bool) (v : Verdict)
          → t ≡ false
          → v ≡ auth_rejected
          → (if t then (s, [], some false) else judged env v b (dialled env s) rest later)
            ≡ after_waits env
                (cool_down env (dialled env s))
                (after_recovery env b (recover_credentials env (dialled env s)) rest later)
      by_verdict true v h k = absurd (cc h)
      by_verdict false accepted h k = absurd (cc k)
      by_verdict false auth_rejected h k = refl
      by_verdict false unreachable h k = absurd (cc k)

  -- When the broker rejects the live password, the cloud issues credentials to the recovery, the
  -- broker accepts those, and the context stays open until then, the connect loop ends connected in
  -- two rounds, with the issued user name and password live, and it waits for nothing but the
  -- cool-down of the recovery, where there is one.
  pub connect_broker_heals :
      (s : Identity) (b : ℕ) (disk : Disk) (c : Credentials)
      → env.done_by s.clock ≡ false
      → env.broker s.clock s.creds.mqtt_username s.creds.mqtt_password ≡ auth_rejected
      → env.done_by (asks_at (dialled env s)) ≡ false
      → recover env.settings
          (provision_meta env (asks_at (dialled env s)))
          (env.cloud (asks_at (dialled env s)))
          s.disk
        ≡ (disk, ok c)
      → env.done_by (asks_at (dialled env s) + env.takes (asks_at (dialled env s))) ≡ false
      → env.broker
          (asks_at (dialled env s) + env.takes (asks_at (dialled env s)))
          c.mqtt_username
          c.mqtt_password
        ≡ accepted
      → (connect_broker env 2 b s).1 ≡ cool_down env (dialled env s)
        × (connect_broker env 2 b s).2 ≡ some true
        × (connect_broker env 2 b s).0.creds.mqtt_username ≡ c.mqtt_username
        × (connect_broker env 2 b s).0.creds.mqtt_password ≡ c.mqtt_password
  unfolding connect_broker Held
  connect_broker_heals s b disk c going stale waiting answered open_then welcome =
      let before = attempting env (dialled env s) (asks_at (dialled env s)) in
      let after = (recovered env before (disk, ok c)).0 in
      let held = recovered-Held before disk c in
      let again = λ (next : Identity). connect_broker env 1 connect_initial_backoff next in
      let later = λ (next : Identity). connect_broker env 1 (next_connect_backoff b) next in
      let ends : connect_broker env 2 b s
          ≡ (dialled env after, cool_down env (dialled env s) ++ [], some true) =
        retried_lem s b again later going stale
        ∙ (ap
              (λ r.
                after_waits env (cool_down env (dialled env s))
                  (after_recovery env b r again later))
              (recover_credentials-ok (dialled env s) disk c waiting answered)
            ∙ ap (after_waits env (cool_down env (dialled env s))) (
                accepted_lem after connect_initial_backoff (ap env.done_by held.2 ∙ open_then)
                  (cc (held.0, held.1, held.2, welcome)))) in
      (
        ap (λ (r : Connecting). r.1) ends ∙ append-nil (cool_down env (dialled env s)),
        ap (λ (r : Connecting). r.2) ends,
        ap (λ (r : Connecting). r.0.creds.mqtt_username) ends ∙ held.0,
        ap (λ (r : Connecting). r.0.creds.mqtt_password) ends ∙ held.1,
      )
