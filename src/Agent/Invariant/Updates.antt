-- ===== src/Agent/Invariant/Updates.antt =====
-- What the update triggers and an update pass leave of the agent
-- (smart-home-agent/internal/agent/update.go).
use smart_home_edge.Prelude.{
  String, Bool, true, false, not, Option, none, some, ◌==◌, if◌then◌else◌,
}
use smart_home_edge.Contract.{UpdatePayload, UpdateStatus}
use smart_home_edge.Fleet.{Manifest}
use smart_home_edge.Supervisor.{Api, Log, Error, Result, ok, err}
use smart_home_edge.Update.Phases.{phases}
use smart_home_edge.Agent.{Agent, World}
use smart_home_edge.Update.{
  Gateway, report_update_status, begun, announced, reported, ended, fail_update, update_all,
  run_update, start_update, handle_update, auto_check_due, check_if_due, mark_auto_checked,
  resumed_or_checked, resume_or_check_updates, in_progress,
}
use smart_home_edge.Agent.Invariant.{
  Quiet, Quiet-refl, Quiet-trans, Quiet-did, Quiet-publish_uplink,
}
use smart_home_edge.Agent.Invariant.Handlers.{Quiet-publish_versions}

-- The agent of a gateway, whatever the branch.
Quiet-agent :
    (t : Bool) {a : Agent} (g h : Gateway)
    → Quiet a g.agent
    → Quiet a h.agent
    → Quiet a (if t then g else h).agent
Quiet-agent true g h p q = p
Quiet-agent false g h p q = q

Quiet-answer :
    {R : Type 0} (t : Bool) {a : Agent} (x y : Gateway × R)
    → Quiet a x.0.agent
    → Quiet a y.0.agent
    → Quiet a (if t then x else y).0.agent
Quiet-answer true x y p q = p
Quiet-answer false x y p q = q

Quiet-start_update : (g : Gateway) (id : String) → Quiet g.agent (start_update g id).0.agent
unfolding start_update
Quiet-start_update g id = Quiet-answer _ _ _ (Quiet-refl g.agent) (Quiet-refl g.agent)

pub Quiet-handle_update :
    (g : Gateway) (o : Option UpdatePayload) → Quiet g.agent (handle_update g o).0.agent
unfolding handle_update
Quiet-handle_update g none = Quiet-refl g.agent
Quiet-handle_update g (some cmd) =
    Quiet-answer _ _ _ (Quiet-refl g.agent) (Quiet-start_update g cmd.update_id)

module _ (w : World) where
  Quiet-checked : (r : Gateway × Bool) → Quiet r.0.agent (check_if_due r).0.agent
  Quiet-checked (g, false) = Quiet-refl g.agent
  Quiet-checked (g, true) = Quiet-start_update g ""

  Quiet-due : (g : Gateway) → Quiet g.agent (auto_check_due w g).0.agent
  unfolding auto_check_due
  Quiet-due g = Quiet-answer _ _ _ (Quiet-refl g.agent) (Quiet-refl g.agent)

  Quiet-resumed :
      (g : Gateway) (o : Option String) → Quiet g.agent (resumed_or_checked w g o).0.agent
  unfolding mark_auto_checked
  Quiet-resumed g (some id) = Quiet-start_update (mark_auto_checked w g) id
  Quiet-resumed g none = Quiet-trans (Quiet-due g) (Quiet-checked (auto_check_due w g))

  pub Quiet-resume_or_check : (g : Gateway) → Quiet g.agent (resume_or_check_updates w g).0.agent
  unfolding resume_or_check_updates
  Quiet-resume_or_check g =
      Quiet-answer _ _ _ (Quiet-refl g.agent) (Quiet-resumed g (in_progress g.store))

  pub Quiet-report_update_status :
      (a : Agent) (status : UpdateStatus) (id message : String)
      → Quiet a (report_update_status w a status id message)
  unfolding report_update_status
  Quiet-report_update_status a status id message = Quiet-publish_uplink w a _ _ false

  module _ (api : Api) (error_text : Error → String) where
    Quiet-reported :
        (g : Gateway) (status : UpdateStatus) (id message : String)
        → Quiet g.agent (reported w api error_text g status id message).agent
    Quiet-reported g status id message = Quiet-report_update_status g.agent status id message

    Quiet-announced :
        (g : Gateway) (id : String) → Quiet g.agent (announced w api error_text g id).agent
    Quiet-announced g id =
        Quiet-agent (id == "") _ _ (Quiet-refl g.agent) (Quiet-reported g _ id "")

    Quiet-ended :
        (g : Gateway) (id : String) (r : Result Bool × Log)
        → Quiet g.agent (ended w api error_text g id r).agent
    unfolding fail_update
    Quiet-ended g id (err e, l) =
        Quiet-trans (Quiet-did _ g.agent) (Quiet-publish_uplink w _ _ _ false)
    Quiet-ended g id (ok true, l) = Quiet-refl g.agent
    Quiet-ended g id (ok false, l) =
        Quiet-trans (Quiet-did _ g.agent)
          (Quiet-trans (Quiet-publish_uplink w _ _ _ false) (Quiet-publish_versions w _))

    pub Quiet-update_all :
        (manifest : Result Manifest) (g : Gateway) (id : String)
        → Quiet g.agent (run_update w api error_text manifest g id).agent
    unfolding run_update update_all
    Quiet-update_all manifest g id =
        let s = begun w api error_text (announced w api error_text g id) id in
        Quiet-agent (not g.supervised) g (ended w api error_text s id (phases api manifest s.log))
          (Quiet-refl g.agent)
          (Quiet-trans (Quiet-announced g id)
            (Quiet-trans (Quiet-did _ _) (Quiet-ended s id (phases api manifest s.log))))
