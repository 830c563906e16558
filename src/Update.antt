-- ===== src/Update.antt =====
-- Bringing the unit to the latest (smart-home-agent/internal/agent/update.go): the on-disk marker,
-- the triggers, and the pass `update_all` that a goroutine runs over the phases. That the process
-- is restarted after a triggered phase is the step `new_update_store`.
pub mod Phases
pub mod Resume
use smart_home_edge.Prelude.{
  String, Bool, true, false, not, ◌&&◌, ◌||◌, Option, none, some, List, [], ◌∷◌, ℕ, ℤ, pos, ◌*◌,
  ltb_ℤ, ◌+ℤ◌, ◌==◌, if◌then◌else◌,
}
use smart_home_edge.Contract.{UpdatePayload, UpdateStatus, update_started, update_ok, update_failed}
use smart_home_edge.Contract.Topics.{update_status_topic}
use smart_home_edge.Fleet.{Addon, Manifest, agent_match}
use smart_home_edge.Supervisor.{
  Api, Log, Error, Result, ok, err, Exec, pure, raise, ◌>>=◌, ◌>>◌, AddonInfo, VersionInfo,
  add_store_repository, resolve_addon_slug, addon_info, install_addon, update_addon_latest,
  set_addon_auto_update, os_info, core_info, update_os_latest, update_core_latest, versions_equal,
}
use smart_home_edge.Update.Phases.{phases}
use smart_home_edge.Agent.{Payload, update_status, wrote, Agent, World, did}
use smart_home_edge.Agent.Uplink.{publish_uplink}
use smart_home_edge.Agent.Inventory.{publish_versions}

pub record UpdateMarker : Type 0 where
  pub in_progress : Bool
  pub update_id : String

pub record UpdateStore : Type 0 where
  pub state : UpdateMarker
  -- the file, once there is one
  pub disk : Option UpdateMarker

abbrev pub no_update : UpdateMarker
no_update = record { in_progress = false; update_id = "" }

unfoldable pub new_update_store : Option UpdateMarker → UpdateStore
new_update_store none = record { state = no_update; disk = none }
new_update_store (some m) = record { state = m; disk = some m }

-- `none` is a false flag.
unfoldable pub in_progress : UpdateStore → Option String
in_progress s = if s.state.in_progress then some s.state.update_id else none

-- The file changes whole, or not at all when the write fails.
unfoldable pub write : Bool → UpdateStore → UpdateMarker → UpdateStore
write written s m = record { state = m; disk = if written then some m else s.disk }

unfoldable pub begin : Bool → UpdateStore → String → UpdateStore
unfolding write
begin written s id = write written s (record { in_progress = true; update_id = id })

unfoldable pub clear : Bool → UpdateStore → UpdateStore
unfolding write
clear written s = write written s no_update

-- The agent with its marker store, the Supervisor's log, the guard and the last self-check
-- (`none` for the zero time).
pub record Gateway : Type 0 where
  -- `a.sup != nil`: the program runs inside Home Assistant OS
  pub supervised : Bool
  pub agent : Agent
  pub store : UpdateStore
  pub log : Log
  pub updating : Bool
  pub last_auto_check : Option ℤ

abbrev pub update_state_file : String
update_state_file = "update-in-progress.json"

abbrev pub update_check_interval : ℤ
update_check_interval = pos (24 * 3600 * 1000000000)

unfoldable pub report_update_status : World → Agent → UpdateStatus → String → String → Agent
unfolding publish_uplink
report_update_status w a status id message =
    publish_uplink w a (update_status_topic a.uid)
      (update_status
        (record { update_id = id; status = status; error = message; ts = w.timestamp a.trace }))
      false

module _ (w : World) (api : Api) (error_text : Error → String) where
  abbrev marker_wrote : Gateway → Agent
  marker_wrote g =
      did (wrote update_state_file (w.write_ok g.agent.trace update_state_file)) g.agent

  abbrev pub begun : Gateway → String → Gateway
  begun g id = record g {
    agent = marker_wrote g;
    store = begin (w.write_ok g.agent.trace update_state_file) g.store id;
  }

  abbrev pub cleared : Gateway → Gateway
  cleared g = record g {
    agent = marker_wrote g;
    store = clear (w.write_ok g.agent.trace update_state_file) g.store;
  }

  abbrev pub reported : Gateway → UpdateStatus → String → String → Gateway
  reported g status id message = record g {
    agent = report_update_status w g.agent status id message;
  }

  unfoldable pub fail_update : Gateway → String → Error → Gateway
  unfolding clear report_update_status
  fail_update g id e = reported (cleared g) update_failed id (error_text e)

  abbrev pub converged : Gateway → String → Gateway
  converged g id =
      let r = reported (cleared g) update_ok id "" in
      record r { agent = publish_versions w r.agent }

  abbrev pub ended : Gateway → String → Result Bool × Log → Gateway
  ended g id (err e, l) = fail_update (record g { log = l }) id e
  ended g id (ok true, l) = record g { log = l }
  ended g id (ok false, l) = converged (record g { log = l }) id

  abbrev pub announced : Gateway → String → Gateway
  announced g id = if id == "" then g else reported g update_started id ""

  unfoldable pub update_all : Result Manifest → Gateway → String → Gateway
  unfolding phases begin clear report_update_status fail_update publish_versions
  update_all manifest g id =
      let s = begun (announced g id) id in
      if not g.supervised then g else ended s id (phases api manifest s.log)

-- The pass that the goroutine is to run, unless one is running.
unfoldable pub start_update : Gateway → String → Gateway × Option String
start_update g id =
    if not g.supervised || g.updating then (g, none) else (record g { updating = true }, some id)

unfoldable pub handle_update : Gateway → Option UpdatePayload → Gateway × Option String
unfolding start_update
handle_update g none = (g, none)
handle_update g (some cmd) = if not g.supervised then (g, none) else start_update g cmd.update_id

-- `time.Since` of the zero time is more than any interval.
abbrev pub due : ℤ → Option ℤ → Bool
due now none = true
due now (some last) = not (ltb_ℤ now (last +ℤ update_check_interval))

unfoldable pub auto_check_due : World → Gateway → Gateway × Bool
auto_check_due w g =
    let now = w.now g.agent.trace in
    if due now g.last_auto_check
    then (record g { last_auto_check = some now }, true)
    else (g, false)

unfoldable pub mark_auto_checked : World → Gateway → Gateway
mark_auto_checked w g = record g { last_auto_check = some (w.now g.agent.trace) }

abbrev pub check_if_due : Gateway × Bool → Gateway × Option String
check_if_due (g, false) = (g, none)
check_if_due (g, true) = start_update g ""

abbrev pub resumed_or_checked : World → Gateway → Option String → Gateway × Option String
resumed_or_checked w g (some id) = start_update (mark_auto_checked w g) id
resumed_or_checked w g none = check_if_due (auto_check_due w g)

unfoldable pub resume_or_check_updates : World → Gateway → Gateway × Option String
unfolding start_update auto_check_due mark_auto_checked in_progress
resume_or_check_updates w g =
    if not g.supervised then (g, none) else resumed_or_checked w g (in_progress g.store)

-- The goroutine's `updateAll` and its deferred reset of the guard.
unfoldable pub run_update :
    World → Api → (Error → String) → Result Manifest → Gateway → String → Gateway
unfolding update_all
run_update w api error_text manifest g id = record (update_all w api error_text manifest g id) {
  updating = false;
}
