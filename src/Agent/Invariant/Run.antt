-- ===== src/Agent/Invariant/Run.antt =====
-- Any sequence of messages, events, timeouts and tasks (smart-home-agent/internal/agent): each
-- handler runs to its end, in whatever order the brokers, Home Assistant, the timers and the
-- scheduler bring them.
use smart_home_edge.Prelude.{
  ◌≡◌, refl, sym, subst, String, false, Option, none, some, List, [], ◌∷◌, ◌≤ℤ◌, ◌≤◌, arith, length,
}
use smart_home_edge.Contract.{
  CommandPayload, ConfigPayload, ConfigEntityMapEntry, DesiredShadowPayload, UpdatePayload,
  UpdateStatus, Severity,
}
use smart_home_edge.EntityMap.{Entry}
use smart_home_edge.Dedupe.Window.{new_cmd_dedupe-IsWell}
use smart_home_edge.Versions.{VersionStore, get}
use smart_home_edge.Versions.Monotone.{AtMost}
use smart_home_edge.Pairing.{Event, Manager}
use smart_home_edge.Agent.{PersistedConfig, StateChange, Agent, World, cmd_dedupe_limit}
use smart_home_edge.Agent.Uplink.{handle_state_change, publish_event, reconcile_reported_state}
use smart_home_edge.Agent.Inventory.{publish_versions, publish_inventory, republish_inventory}
use smart_home_edge.Agent.Config.{
  new_agent, restored, with_stored_map, handle_config, on_broker_connect, on_claimed_task,
  on_unclaimed_task,
}
use smart_home_edge.Agent.PairingCommand.{handle_bridge_event, handle_pairing_timeout}
use smart_home_edge.Fleet.{Manifest}
use smart_home_edge.Supervisor.{Api, Error, Result}
use smart_home_edge.Update.{
  Gateway, report_update_status, handle_update, resume_or_check_updates, run_update,
}
use smart_home_edge.Agent.Invariant.Updates.{
  Quiet-report_update_status, Quiet-handle_update, Quiet-resume_or_check, Quiet-update_all,
}
use smart_home_edge.Agent.Command.{handle_command}
use smart_home_edge.Agent.Shadow.{handle_desired_shadow}
use smart_home_edge.Agent.Invariant.{
  IsSound, Quiet-refl, Quiet-handle_state_change, Quiet-publish_event, Quiet-reconcile,
}
use smart_home_edge.Agent.Invariant.Handlers.{
  Quiet-publish_versions, Quiet-publish_inventory, Quiet-republish_inventory, Quiet-on_claimed_task,
  Quiet-on_unclaimed_task, Quiet-on_broker_connect, Quiet-handle_bridge_event,
  Quiet-handle_pairing_timeout,
}
use smart_home_edge.Agent.Invariant.Progress.{
  moved, Progress, Progress-trans, Progress-Quiet, Progress-handle_command,
  Progress-handle_desired_shadow, Progress-handle_config,
}

-- The messages of the broker and of the local broker, the events of Home Assistant, the timeout of
-- any pairing session, and the tasks that the handlers and the scheduler start. A pass of updates
-- is one input, and what it publishes may also come report by report, between other inputs.
pub data Input : Type 0 where
  command : Option CommandPayload → Input
  shadow : Option DesiredShadowPayload → Input
  config : Option ConfigPayload → Input
  update_message : Option UpdatePayload → Input
  state_change : StateChange → Input
  bridge_event : Option Event → Input
  pairing_timeout : (session : String) → Input
  connected refresh republish claimed_task unclaimed_task reconcile resume_or_check : Input
  update_task : Result Manifest → (id : String) → Input
  update_report : UpdateStatus → (id message : String) → Input
  versions_report : Input
  raise_event : (kind id : String) → Severity → (device : String) → Input

abbrev with_agent : Gateway → Agent → Gateway
with_agent g a = record g { agent = a }

module _ (w : World) (api : Api) (error_text : Error → String) where
  pub step : Gateway → Input → Gateway
  step g (command o) = with_agent g (handle_command w g.agent o)
  step g (shadow o) = with_agent g (handle_desired_shadow w g.agent o)
  step g (config o) = with_agent g (handle_config w g.agent o)
  step g (update_message o) = (handle_update g o).0
  step g (state_change sc) = with_agent g (handle_state_change w g.agent sc)
  step g (bridge_event o) = with_agent g (handle_bridge_event w g.agent o)
  step g (pairing_timeout session) = with_agent g (handle_pairing_timeout w g.agent session)
  step g connected = with_agent g (on_broker_connect w g.agent)
  step g refresh = with_agent g (publish_inventory w g.agent)
  step g republish = with_agent g (republish_inventory w g.agent).0
  step g claimed_task = with_agent g (on_claimed_task w g.agent)
  step g unclaimed_task = with_agent g (on_unclaimed_task w g.agent)
  step g reconcile = with_agent g (reconcile_reported_state w g.agent)
  step g resume_or_check = (resume_or_check_updates w g).0
  step g (update_task manifest id) = run_update w api error_text manifest g id
  step g (update_report status id message) =
      with_agent g (report_update_status w g.agent status id message)
  step g versions_report = with_agent g (publish_versions w g.agent)
  step g (raise_event kind id severity device) =
      with_agent g (publish_event w g.agent kind id severity device)

  pub run : Gateway → List Input → Gateway
  run g [] = g
  run g (i ∷ is) = run (step g i) is

  step-Progress : (g : Gateway) (i : Input) → Progress g.agent (step g i).agent
  unfolding step
  step-Progress g (command o) = Progress-handle_command w g.agent o
  step-Progress g (shadow o) = Progress-handle_desired_shadow w g.agent o
  step-Progress g (config o) = Progress-handle_config w g.agent o
  step-Progress g (update_message o) = Progress-Quiet (Quiet-handle_update g o)
  step-Progress g (state_change sc) = Progress-Quiet (Quiet-handle_state_change w g.agent sc)
  step-Progress g (bridge_event o) = Progress-Quiet (Quiet-handle_bridge_event w g.agent o)
  step-Progress g (pairing_timeout session) =
      Progress-Quiet (Quiet-handle_pairing_timeout w g.agent session)
  step-Progress g connected = Progress-Quiet (Quiet-on_broker_connect w g.agent)
  step-Progress g refresh = Progress-Quiet (Quiet-publish_inventory w g.agent)
  step-Progress g republish = Progress-Quiet (Quiet-republish_inventory w g.agent)
  step-Progress g claimed_task = Progress-Quiet (Quiet-on_claimed_task w g.agent)
  step-Progress g unclaimed_task = Progress-Quiet (Quiet-on_unclaimed_task w g.agent)
  step-Progress g reconcile = Progress-Quiet (Quiet-reconcile w g.agent)
  step-Progress g resume_or_check = Progress-Quiet (Quiet-resume_or_check w g)
  step-Progress g (update_task manifest id) =
      Progress-Quiet (Quiet-update_all w api error_text manifest g id)
  step-Progress g (update_report status id message) =
      Progress-Quiet (Quiet-report_update_status w g.agent status id message)
  step-Progress g versions_report = Progress-Quiet (Quiet-publish_versions w g.agent)
  step-Progress g (raise_event kind id severity device) =
      Progress-Quiet (Quiet-publish_event w g.agent kind id severity device)

  run-Progress : (g : Gateway) (is : List Input) → Progress g.agent (run g is).agent
  unfolding run
  run-Progress g [] = Progress-Quiet (Quiet-refl g.agent)
  run-Progress g (i ∷ is) = Progress-trans (step-Progress g i) (run-Progress (step g i) is)

  -- Whatever inputs arrive, each handled to its end, the applied version of every device and the
  -- config version only grow.
  pub run_monotone :
      (g : Gateway) (is : List Input) (device : String)
      → AtMost (get g.agent.versions device) (get (run g is).agent.versions device)
        × (g.agent.config_version ≤ℤ (run g is).agent.config_version)
  run_monotone g is device = ((run-Progress g is).applied device, (run-Progress g is).config_grows)

mapped-IsSound :
    (a : Agent) (es : List ConfigEntityMapEntry) → IsSound a → IsSound (with_stored_map a es)
mapped-IsSound a [] s = s
mapped-IsSound a (e ∷ es) s = moved s refl refl refl

restored-IsSound : (a : Agent) (o : Option PersistedConfig) → IsSound a → IsSound (restored a o)
restored-IsSound a none s = s
restored-IsSound a (some f) s = mapped-IsSound _ f.entity_map (moved s refl refl refl)

pub new_agent-IsSound :
    (uid : String) (override : List Entry) (stored : VersionStore) (file : Option PersistedConfig)
    (manager : Option Manager)
    → IsSound (new_agent uid override stored file manager)
unfolding new_agent
new_agent-IsSound uid override stored file manager = restored-IsSound _ file (record {
  buffer = record { positive = omega arith; within = omega arith };
  dedupe = new_cmd_dedupe-IsWell cmd_dedupe_limit (omega arith);
  buffer_limit = refl;
  dedupe_limit = refl;
  running = refl;
})

-- From any state that `New` builds, whatever inputs arrive, each handled to its end, and however
-- the outside answers, the agent does not index a slice out of range, holds at most 512 messages
-- and remembers at most 1024 command ids.
pub run_bounded :
    (w : World) (api : Api) (error_text : Error → String) (g : Gateway) (uid : String)
    (override : List Entry) (stored : VersionStore) (file : Option PersistedConfig)
    (manager : Option Manager) (is : List Input)
    → g.agent ≡ new_agent uid override stored file manager
    → let a = (run w api error_text g is).agent in
      (a.panicked ≡ false) × (length a.buffer.items ≤ 512) × (length a.dedupe.order ≤ 1024)
run_bounded w api error_text g uid override stored file manager is fresh =
    let s : IsSound (run w api error_text g is).agent =
      (run-Progress w api error_text g is).sound
        (subst IsSound (sym fresh) (new_agent-IsSound uid override stored file manager)) in
    (
      s.running,
      omega (arith, s.buffer.within, s.buffer_limit),
      omega (arith, s.dedupe.within, s.dedupe_limit),
    )
