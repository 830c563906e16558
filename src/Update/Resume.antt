-- ===== src/Update/Resume.antt =====
-- What a restart finds after a pass (smart-home-agent/internal/agent/update.go), and that the
-- request that restarts the unit is the last one.
use smart_home_edge.Prelude.{
  ◌||◌, ◌≡◌, refl, ◌∙◌, ap, inl, inr, String, Bool, true, false, not, Option, none, some, [], ◌∷◌,
  ◌==◌, Bool-cases, if◌then◌else◌,
}
use smart_home_edge.Fleet.{Manifest}
use smart_home_edge.Supervisor.{
  Api, Log, Error, Result, ok, err, Exec, pure, continue, post, no_body, call, addon_mutate,
  update_addon_latest, update_os_latest, update_core_latest, os_info, core_info, or_legacy,
  supervisor, transport, decoding, addon_info,
}
use smart_home_edge.Agent.{Agent, World, Trace}
use smart_home_edge.Update.{resume_or_check_updates, start_update, mark_auto_checked}
use smart_home_edge.Update.{
  Gateway, new_update_store, in_progress, begin, clear, begun, announced, update_all, fail_update,
  ended, update_state_file,
}
use smart_home_edge.Update.Phases.{
  phases, update_addons, update_os, update_core, update_self, update_available, enable_auto_update,
  agent_self_slug,
}

-- What an outcome leaves to be resumed.
pub left : String → Result Bool → Option String
left id (ok true) = some id
left id (ok false) = none
left id (err e) = none

-- The agent that comes up after a restart: only the disk survives.
abbrev pub rebooted : Gateway → Agent → Gateway
rebooted g next = record {
  supervised = true;
  agent = next;
  store = new_update_store g.store.disk;
  log = [];
  updating = false;
  last_auto_check = none;
}

guarded : (t : Bool) (g h : Gateway) → t ≡ true → (if not t then g else h) ≡ h
guarded true g h p = refl
guarded false g h p = absurd (cc p)

module _ (w : World) (api : Api) (error_text : Error → String)
    (writes : (t : Trace) → w.write_ok t update_state_file ≡ true) where
  ended-left :
      (g : Gateway) (id : String) (r : Result Bool × Log)
      → in_progress (new_update_store (begun w api error_text g id).store.disk) ≡ some id
      → in_progress
          (new_update_store (ended w api error_text (begun w api error_text g id) id r).store.disk)
        ≡ left id r.0
  unfolding left new_update_store in_progress begin clear fail_update
  ended-left g id (ok true, l) kept = kept
  ended-left g id (ok false, l) kept = rw (writes (begun w api error_text g id).agent.trace) refl
  ended-left g id (err e, l) kept = rw (writes (begun w api error_text g id).agent.trace) refl

  begun_left :
      (g : Gateway) (id : String)
      → in_progress (new_update_store (begun w api error_text g id).store.disk) ≡ some id
  unfolding new_update_store in_progress begin
  begun_left g id = rw (writes g.agent.trace) refl

  announced_log : (g : Gateway) (id : String) → (announced w api error_text g id).log ≡ g.log
  announced_log g id = elim (Bool-cases (id == "")) [ inl t ↦ rw t refl | inr f ↦ rw f refl ]

  -- With a Supervisor, and where the marker file can be written: after a pass, a restarted agent finds an update to resume
  -- exactly when a phase has triggered a restart, and then with the same update id; a pass that
  -- converged or failed leaves none.
  pub restart-update_all :
      (manifest : Result Manifest) (g : Gateway) (id : String)
      → g.supervised ≡ true
      → in_progress (new_update_store (update_all w api error_text manifest g id).store.disk)
        ≡ left id (phases api manifest g.log).0
  unfolding update_all
  restart-update_all manifest g id sup =
      ap (λ (h : Gateway). in_progress (new_update_store h.store.disk))
        (guarded g.supervised g _ sup)
      ∙ (ended-left (announced w api error_text g id) id
            (phases api manifest (announced w api error_text g id).log)
            (begun_left (announced w api error_text g id) id)
          ∙ ap (λ l. left id (phases api manifest l).0) (announced_log g id))

  resumed :
      (g : Gateway) (id : String)
      → g.supervised ≡ true
      → g.updating ≡ false
      → in_progress g.store ≡ some id
      → (resume_or_check_updates w g).1 ≡ some id
  unfolding resume_or_check_updates start_update mark_auto_checked
  resumed g id sup idle found = rw (sup, found, idle) refl

  -- With a Supervisor, and where the marker file can be written: when a pass has triggered a
  -- restart, the agent that comes up from the disk starts a pass for the same update id at its first
  -- claimed connection, whatever the rest of its state is.
  pub reboot_resumes :
      (manifest : Result Manifest) (g : Gateway) (id : String) (next : Agent)
      → g.supervised ≡ true
      → (phases api manifest g.log).0 ≡ ok true
      → (resume_or_check_updates w (rebooted (update_all w api error_text manifest g id) next)).1
        ≡ some id
  unfolding left
  reboot_resumes manifest g id next sup triggered =
      resumed (rebooted (update_all w api error_text manifest g id) next) id refl refl
        (restart-update_all manifest g id sup ∙ ap (left id) triggered)

abbrev restart_endpoint : String → Bool
restart_endpoint e =
    (e == "/os/update")
    || ((e == "/core/update")
        || ((e == "/store/addons/self/update") || (e == "/addons/self/update")))

-- Whether the newest request restarts the unit.
abbrev pub restarts : Log → Bool
restarts [] = false
restarts (r ∷ l) = restart_endpoint r.endpoint

abbrev Restarted : Result Bool × Log → Type 0
Restarted r = r.0 ≡ ok true → restarts r.1 ≡ true

bind-Restarted :
    {A : Type 0} (f : A → Exec Bool) (r : Result A × Log)
    → ((a : A) (l : Log) → Restarted (f a l))
    → Restarted (continue f r)
bind-Restarted f (ok a, l) h = λ p. h a l p
bind-Restarted f (err e, l) h = λ p. absurd (cc p)

if_Restarted :
    (t : Bool) (m k : Exec Bool) (l : Log)
    → Restarted (m l)
    → Restarted (k l)
    → Restarted ((if t then m else k) l)
if_Restarted true m k l p q = p
if_Restarted false m k l p q = q

chained :
    (r : Result Bool × Log) (next : Exec Bool)
    → Restarted r
    → ((l : Log) → Restarted (next l))
    → Restarted (continue (λ t. if t then pure true else next) r)
chained (ok true, l) next h k = h
chained (ok false, l) next h k = k l
chained (err e, l) next h k = λ p. absurd (cc p)

-- A phase that has nothing to do.
idle : (l : Log) → Restarted (pure false l)
idle l p = absurd (cc p)

asked :
    (r : Result (Unit {0}) × Log) → restarts r.1 ≡ true → Restarted (continue (λ _. pure true) r)
asked (ok a, l) h p = h
asked (err e, l) h p = h

done_log : (r : Result String × Log) → (continue (λ _. pure tt) r).1 ≡ r.1
done_log (ok a, l) = refl
done_log (err e, l) = refl

module _ (api : Api) where
  os_asked : (l : Log) → restarts (update_os_latest api l).1 ≡ true
  unfolding update_os_latest call
  os_asked l = rw (done_log (call api post "/os/update" no_body true l)) refl

  core_asked : (l : Log) → restarts (update_core_latest api l).1 ≡ true
  unfolding update_core_latest call
  core_asked l = rw (done_log (call api post "/core/update" no_body true l)) refl

  retried :
      (legacy : Exec String) (r : Result String × Log)
      → restarts r.1 ≡ true
      → ((l : Log) → restarts (legacy l).1 ≡ true)
      → restarts (or_legacy api legacy r).1 ≡ true
  retried legacy (ok raw, l) h k = h
  retried legacy (err (supervisor m), l) h k = rw (done_log (legacy l)) (k l)
  retried legacy (err (transport m), l) h k = h
  retried legacy (err (decoding m), l) h k = h

  self_asked : (l : Log) → restarts (update_addon_latest api agent_self_slug l).1 ≡ true
  unfolding update_addon_latest addon_mutate call
  self_asked l =
      retried (call api post "/addons/self/update" no_body true)
        (call api post "/store/addons/self/update" no_body true l) refl (λ _. refl)

  os-Restarted : (l : Log) → Restarted (update_os api l)
  unfolding update_os
  os-Restarted l = bind-Restarted _ (os_info api l) (λ info l'.
      if_Restarted (not (update_available api info)) _ _ l' (idle l')
        (asked (update_os_latest api l') (os_asked l')))

  core-Restarted : (l : Log) → Restarted (update_core api l)
  unfolding update_core
  core-Restarted l = bind-Restarted _ (core_info api l) (λ info l'.
      if_Restarted (not (update_available api info)) _ _ l' (idle l')
        (asked (update_core_latest api l') (core_asked l')))

  self-Restarted : (l : Log) → Restarted (update_self api l)
  unfolding update_self
  self-Restarted l = bind-Restarted _ (addon_info api agent_self_slug l) (λ info l1.
      if_Restarted (not info.installed) _ _ l1 (idle l1) (
        bind-Restarted _ (enable_auto_update api agent_self_slug info.auto_update l1) (λ _ l2.
          if_Restarted (not info.update_available) _ _ l2 (idle l2)
            (asked (update_addon_latest api agent_self_slug l2) (self_asked l2)))))

  -- When a pass says that a restart was triggered, the last thing that it asked of the Supervisor
  -- is that restart: the update of the OS, of the Core, or of the agent's own add-on.
  pub triggered_last :
      (manifest : Result Manifest) (l : Log)
      → (phases api manifest l).0 ≡ ok true
      → restarts (phases api manifest l).1 ≡ true
  unfolding phases
  triggered_last manifest l = bind-Restarted _ (update_addons api manifest l) (λ _ l1.
      chained (update_os api l1) _ (os-Restarted l1)
        (λ l2. chained (update_core api l2) (update_self api) (core-Restarted l2) self-Restarted))
