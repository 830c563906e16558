-- ===== src/Agent/Delivery.antt =====
-- Nothing is lost on the way up, and nothing is done twice on the way down
-- (smart-home-agent/internal/agent/agent.go: `publishUplink`, `handleCommand`,
-- `handleDesiredShadow`, `commandExpired`).
use smart_home_edge.Prelude.{
  ◌≡◌, refl, ◌⊎◌, inl, inr, String, Bool, true, false, some, [], ◌∷◌, ◌++◌, ◌==◌, Bool-cases,
}
use smart_home_edge.Contract.{CommandPayload}
use smart_home_edge.Buffer.{Pending}
use smart_home_edge.Buffer.Window.{last, push_window}
use smart_home_edge.Dedupe.{CmdDedupe, first_see}
use smart_home_edge.Dedupe.Redelivery.{first_see_twice}
use smart_home_edge.Agent.{Payload, published, Agent, World}
use smart_home_edge.Agent.Uplink.{message, deliver, hold, send, publish_uplink}
use smart_home_edge.Agent.Command.{handle_command, deduped}
use smart_home_edge.Agent.Invariant.{IsSound}
use smart_home_edge.Agent.Invariant.Handlers.{Quiet-apply_command}

-- Taken by the broker, or the newest message of the buffer.
pub Delivered : Agent → Pending → Agent → Type 0
Delivered a m b =
    ((b.buffer ≡ a.buffer) × (b.trace ≡ published m true ∷ a.trace))
    ⊎ (b.buffer.items ≡ last a.buffer.limit (a.buffer.items ++ m ∷ []))

module _ (w : World) where
  deliver-Delivered : (a : Agent) (m : Pending) → IsSound a → Delivered a m (deliver w a m)
  unfolding Delivered deliver hold send
  deliver-Delivered a m s = elim (Bool-cases (w.connected a.trace)) [
    | inl up ↦ elim (Bool-cases (w.publish_ok a.trace m)) [
      | inl taken ↦ rw (up, taken) (inl (refl, refl))
      | inr refused ↦ rw (up, refused, push_window a.buffer m s.buffer) (inr refl)
    ]
    | inr down ↦ rw (down, push_window a.buffer m s.buffer) (inr refl)
  ]

  -- On a sound agent, a message that can be encoded is either accepted by the broker, the buffer
  -- left as it was, or it is the newest entry of the buffer, with the newest others that fit.
  pub publish_uplink-Delivered :
      (a : Agent) (topic : String) (payload : Payload) (retain : Bool) (raw : String)
      → IsSound a
      → w.marshal payload ≡ some raw
      → Delivered a (message topic raw retain) (publish_uplink w a topic payload retain)
  unfolding publish_uplink
  publish_uplink-Delivered a topic payload retain raw s e =
      rw e (deliver-Delivered a (message topic raw retain) s)

  refused_again :
      (b : Agent) (cmd : CommandPayload)
      → first_see b.dedupe cmd.cmd_id ≡ some (b.dedupe, false)
      → handle_command w b (some cmd) ≡ b
  unfolding handle_command
  refused_again b cmd known = elim (Bool-cases (cmd.cmd_id == "")) [
    | inl t ↦ rw t refl
    | inr f ↦ rw (f, known) refl
  ]

  dedupe-deduped :
      (a : Agent) (cmd : CommandPayload) (e : CmdDedupe) (fresh : Bool)
      → (deduped w a cmd (some (e, fresh))).dedupe ≡ e
  dedupe-deduped a cmd e false = refl
  dedupe-deduped a cmd e true = (Quiet-apply_command w (record a { dedupe = e }) cmd).dedupe

  -- On a sound agent, a command that comes again at once with the id of the one before, whatever
  -- else it says, changes nothing: no call, no ack, no message.
  pub handle_command_twice :
      (a : Agent) (cmd again : CommandPayload)
      → IsSound a
      → again.cmd_id ≡ cmd.cmd_id
      → handle_command w (handle_command w a (some cmd)) (some again)
        ≡ handle_command w a (some cmd)
  unfolding handle_command
  handle_command_twice a cmd again s same = elim (Bool-cases (cmd.cmd_id == "")) [
    | inl t ↦ rw (same, t) refl
    | inr f ↦
        let (e, fresh, found, known) = first_see_twice a.dedupe cmd.cmd_id s.dedupe in
        let now = dedupe-deduped a cmd e fresh in
        rw (f, found)
          (refused_again (deduped w a cmd (some (e, fresh))) again (rw (now, same) known))
  ]
