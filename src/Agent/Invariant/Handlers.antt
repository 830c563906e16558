-- ===== src/Agent/Invariant/Handlers.antt =====
-- The handlers of messages that keep the agent sound and touch no version
-- (smart-home-agent/internal/agent).
use smart_home_edge.Prelude.{
  inl, inr, String, Bool, true, false, not, Option, none, some, List, [], ◌∷◌, ◌==◌, if◌then◌else◌,
  Bool-cases,
}
use smart_home_edge.Contract.{CommandPayload, InventoryEntity}
use smart_home_edge.Translate.{ServiceCall}
use smart_home_edge.Pairing
use smart_home_edge.Agent.{paired, Agent, World, did}
use smart_home_edge.Agent.Uplink.{emit_pairing_event}
use smart_home_edge.Agent.Inventory.{
  publish_inventory, republish_inventory, publish_versions, publish_listed, publish_encoded,
}
use smart_home_edge.Agent.Config.{
  activate_claimed, deactivate_claimed, on_claimed_task, on_unclaimed_task, on_broker_connect,
}
use smart_home_edge.Agent.PairingCommand.{
  perform, refuse_pairing, handle_pairing_command, handle_bridge_event, bridged, started_with, pair,
  handle_pairing_timeout, timed_out,
}
use smart_home_edge.Agent.Command.{apply_command, call_service, act}
use smart_home_edge.Agent.Shadow.{apply_calls}
use smart_home_edge.Agent.Invariant.{
  Quiet, Quiet-refl, Quiet-trans, Quiet-if, Quiet-did, Quiet-hash, Quiet-pairing, Quiet-send,
  Quiet-publish_uplink, Quiet-ack_command, Quiet-emit_pairing_event, Quiet-flush,
}

Quiet-answer {ℓ} :
    {R : Type ℓ} {a : Agent} (t : Bool) (x y : Agent × R)
    → Quiet a x.0
    → Quiet a y.0
    → Quiet a (if t then x else y).0
Quiet-answer true x y p q = p
Quiet-answer false x y p q = q

module _ (w : World) where
  Quiet-encoded : (a : Agent) (o : Option String) → Quiet a (publish_encoded w a o)
  Quiet-encoded a none = Quiet-refl a
  Quiet-encoded a (some raw) =
      Quiet-if _ _ _ (Quiet-send w a _) (Quiet-trans (Quiet-send w a _) (Quiet-hash _ ""))

  Quiet-listed : (a : Agent) (o : Option (List InventoryEntity)) → Quiet a (publish_listed w a o)
  Quiet-listed a none = Quiet-refl a
  Quiet-listed a (some entities) =
      Quiet-if _ _ _ (Quiet-refl a) (Quiet-trans (Quiet-hash a _) (Quiet-encoded _ _))

  pub Quiet-publish_inventory : (a : Agent) → Quiet a (publish_inventory w a)
  unfolding publish_inventory
  Quiet-publish_inventory a =
      Quiet-if _ _ _ (Quiet-refl a) (Quiet-trans (Quiet-did _ a) (Quiet-listed _ _))

  pub Quiet-republish_inventory : (a : Agent) → Quiet a (republish_inventory w a).0
  unfolding republish_inventory
  Quiet-republish_inventory a = Quiet-answer (not a.claimed) _ _ (Quiet-refl a) (
      Quiet-answer (not (w.connected a.trace)) _ _ (Quiet-refl a) (
        Quiet-trans (Quiet-hash a "") (Quiet-publish_inventory (record a { inventory_hash = "" }))))

  pub Quiet-publish_versions : (a : Agent) → Quiet a (publish_versions w a)
  unfolding publish_versions
  Quiet-publish_versions a = Quiet-if _ _ _ (Quiet-refl a) (Quiet-publish_uplink w a _ _ true)

  pub Quiet-activate_claimed : (a : Agent) → Quiet a (activate_claimed w a)
  unfolding activate_claimed
  Quiet-activate_claimed a =
      Quiet-trans (Quiet-trans (Quiet-trans (Quiet-did _ a) (Quiet-did _ _)) (Quiet-did _ _)) (
        Quiet-trans (Quiet-publish_inventory _)
          (Quiet-trans (Quiet-publish_versions _) (Quiet-trans (Quiet-did _ _) (Quiet-did _ _))))

  pub Quiet-deactivate_claimed : (a : Agent) → Quiet a (deactivate_claimed a)
  unfolding deactivate_claimed
  Quiet-deactivate_claimed a = Quiet-trans (Quiet-did _ a) (Quiet-hash _ "")

  pub Quiet-on_claimed_task : (a : Agent) → Quiet a (on_claimed_task w a)
  unfolding on_claimed_task
  Quiet-on_claimed_task a =
      Quiet-trans (Quiet-did _ a)
        (Quiet-if _ _ _ (Quiet-refl _) (Quiet-trans (Quiet-activate_claimed _) (Quiet-flush w _)))

  pub Quiet-on_unclaimed_task : (a : Agent) → Quiet a (on_unclaimed_task w a)
  unfolding on_unclaimed_task
  Quiet-on_unclaimed_task a = Quiet-if _ _ _ (Quiet-deactivate_claimed a) (Quiet-refl a)

  pub Quiet-on_broker_connect : (a : Agent) → Quiet a (on_broker_connect w a)
  unfolding on_broker_connect
  Quiet-on_broker_connect a =
      Quiet-trans (Quiet-trans (Quiet-send w a _) (Quiet-did _ _))
        (Quiet-trans (Quiet-if _ _ _ (Quiet-activate_claimed _) (Quiet-refl _)) (Quiet-flush w _))

  pub Quiet-perform : (a : Agent) (acts : List Pairing.Action) → Quiet a (perform w a acts)
  unfolding perform
  Quiet-perform a [] = Quiet-refl a
  Quiet-perform a (Pairing.emit session ev ∷ acts) =
      Quiet-trans (Quiet-emit_pairing_event w a session ev)
        (Quiet-perform (emit_pairing_event w a session ev) acts)
  Quiet-perform a (Pairing.backend_start d ∷ acts) =
      Quiet-trans (Quiet-did _ a) (Quiet-perform (did (paired (Pairing.backend_start d)) a) acts)
  Quiet-perform a (action ∷ acts) =
      Quiet-trans (Quiet-did _ a) (Quiet-perform (did (paired action) a) acts)

  Quiet-refusal :
      (a : Agent) (session id reason : String) → Quiet a (refuse_pairing w a session id reason)
  unfolding refuse_pairing
  Quiet-refusal a session id reason =
      Quiet-trans (Quiet-emit_pairing_event w a session _) (Quiet-ack_command w _ id _)

  Quiet-session :
      (a : Agent) (m : Pairing.Manager) (acts : List Pairing.Action)
      → Quiet a (perform w (record a { pairing = some m }) acts)
  Quiet-session a m acts = Quiet-trans (Quiet-pairing a (some m)) (Quiet-perform _ acts)

  Quiet-started :
      (a : Agent) (session id : String)
      (r : Pairing.Manager × Pairing.Outcome × List Pairing.Action)
      → Quiet a (started_with w a session id r)
  Quiet-started a session id (m, Pairing.ok, acts) =
      Quiet-trans (Quiet-session a m acts) (Quiet-ack_command w _ id _)
  Quiet-started a session id (m, Pairing.err_busy, acts) =
      Quiet-trans (Quiet-session a m acts) (Quiet-refusal _ session id _)
  Quiet-started a session id (m, Pairing.err_backend, acts) =
      Quiet-trans (Quiet-session a m acts) (Quiet-refusal _ session id _)

  Quiet-pair :
      (a : Agent) (cmd : CommandPayload) (session : String) (o : Option Pairing.Manager)
      → Quiet a (pair w a cmd session o)
  Quiet-pair a cmd session none = Quiet-refusal a session _ _
  Quiet-pair a cmd session (some m) =
      Quiet-if (cmd.action == "pairing.start") _ _ (Quiet-started a session _ _) (
        Quiet-if (cmd.action == "pairing.stop") _ _
          (Quiet-trans (Quiet-session a _ _) (Quiet-ack_command w _ _ _))
          (Quiet-ack_command w a _ _))

  pub Quiet-handle_pairing_command :
      (a : Agent) (cmd : CommandPayload) → Quiet a (handle_pairing_command w a cmd)
  unfolding handle_pairing_command
  Quiet-handle_pairing_command a cmd =
      Quiet-if _ _ _ (Quiet-ack_command w a _ _) (Quiet-pair a cmd _ a.pairing)

  Quiet-bridged :
      (a : Agent) (ev : Pairing.Event) (o : Option Pairing.Manager) → Quiet a (bridged w a ev o)
  Quiet-bridged a ev none = Quiet-refl a
  Quiet-bridged a ev (some m) = Quiet-session a _ _

  pub Quiet-handle_bridge_event :
      (a : Agent) (o : Option Pairing.Event) → Quiet a (handle_bridge_event w a o)
  unfolding handle_bridge_event
  Quiet-handle_bridge_event a none = Quiet-refl a
  Quiet-handle_bridge_event a (some ev) = Quiet-bridged a ev a.pairing

  Quiet-timed_out :
      (a : Agent) (session : String) (o : Option Pairing.Manager)
      → Quiet a (timed_out w a session o)
  Quiet-timed_out a session none = Quiet-refl a
  Quiet-timed_out a session (some m) = Quiet-session a _ _

  pub Quiet-handle_pairing_timeout :
      (a : Agent) (session : String) → Quiet a (handle_pairing_timeout w a session)
  unfolding handle_pairing_timeout
  Quiet-handle_pairing_timeout a session = Quiet-timed_out a session a.pairing

  pub Quiet-call_service : (a : Agent) (c : ServiceCall) → Quiet a (call_service w a c).0
  unfolding call_service
  Quiet-call_service a c = Quiet-did _ a

  Quiet-act :
      (a : Agent) (cmd : CommandPayload) (entity : String) (o : Option (String × String))
      → Quiet a (act w a cmd entity o)
  Quiet-act a cmd entity none = Quiet-ack_command w a _ _
  Quiet-act a cmd entity (some (domain, service)) =
      Quiet-trans (Quiet-call_service a _) (Quiet-ack_command w _ _ _)

  -- What a new command does leaves the set of processed ids alone.
  pub Quiet-apply_command : (a : Agent) (cmd : CommandPayload) → Quiet a (apply_command w a cmd)
  unfolding apply_command
  Quiet-apply_command a cmd = Quiet-if _ _ _ (Quiet-refl a) (
      Quiet-if _ _ _ (Quiet-handle_pairing_command a cmd)
        (Quiet-if _ _ _ (Quiet-ack_command w a _ _) (Quiet-act a cmd _ _)))

  pub Quiet-apply_calls : (a : Agent) (cs : List ServiceCall) → Quiet a (apply_calls w a cs).0
  unfolding apply_calls
  Quiet-apply_calls a [] = Quiet-refl a
  Quiet-apply_calls a (c ∷ cs) = elim (Bool-cases (w.call_ok a.trace c)) [
    | inl accepted ↦ rw accepted (Quiet-trans (Quiet-did _ a) (Quiet-apply_calls _ cs))
    | inr failed ↦ rw failed (Quiet-did _ a)
  ]
