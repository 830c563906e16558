-- ===== src/Agent/Invariant/Progress.antt =====
-- What every handler keeps: soundness, and that no version is taken back
-- (smart-home-agent/internal/agent).
use smart_home_edge.Prelude.{
  ◌≡◌, refl, sym, ap, ◌∙◌, inl, inr, String, Bool, true, false, Option, none, some, ◌≤ℤ◌, ltb_ℤ, ℤ,
  arith, ◌==◌, if◌then◌else◌, Bool-cases, subst,
}
use smart_home_edge.Contract.{CommandPayload, ConfigPayload, DesiredShadowPayload}
use smart_home_edge.Buffer.{UplinkBuffer}
use smart_home_edge.Buffer.Window.{IsBounded}
use smart_home_edge.Dedupe.{CmdDedupe, first_see}
use smart_home_edge.Dedupe.Window.{IsWell, Seen, first_see-Seen}
use smart_home_edge.Versions.{get}
use smart_home_edge.Versions.Monotone.{AtMost, AtMost-refl, AtMost-trans, set-AtMost}
use smart_home_edge.EntityMap.{entity_for_device}
use smart_home_edge.Agent.{Trace, PersistedConfig, Agent, World}
use smart_home_edge.Agent.Config.{
  handle_config, save_config_state, config_state_file, adopted, transition,
}
use smart_home_edge.Agent.Command.{handle_command, deduped}
use smart_home_edge.Agent.Shadow.{finish, handle_desired_shadow, apply_shadow, record_version}
use smart_home_edge.Agent.Invariant.{
  IsSound, Quiet, Quiet-refl, Quiet-did, Quiet-report_device_state,
}
use smart_home_edge.Agent.Invariant.Handlers.{Quiet-apply_command, Quiet-apply_calls}

-- The state after an operation is sound if the one before was, the applied version of every device
-- is at least what it was, and so is the config version.
pub record Progress (a b : Agent) : Type 0 where
  pub sound : IsSound a → IsSound b
  pub applied : (device : String) → AtMost (get a.versions device) (get b.versions device)
  pub config_grows : a.config_version ≤ℤ b.config_version

pub Progress-trans : {a b c : Agent} → Progress a b → Progress b c → Progress a c
Progress-trans p q = record {
  sound = λ s. q.sound (p.sound s);
  applied = λ d. AtMost-trans _ _ _ (p.applied d) (q.applied d);
  config_grows = omega (arith, p.config_grows, q.config_grows);
}

pub Progress-Quiet : {a b : Agent} → Quiet a b → Progress a b
Progress-Quiet {a} {b} q = record {
  sound = q.sound;
  applied = λ d. rw q.versions (AtMost-refl (get a.versions d));
  config_grows = rw q.config_version (omega arith);
}

Progress-if :
    (t : Bool) {a : Agent} (b c : Agent)
    → Progress a b
    → Progress a c
    → Progress a (if t then b else c)
Progress-if true b c p q = p
Progress-if false b c p q = q

-- An agent with the same buffer, ids and panic flag as a sound one.
pub moved :
    {a b : Agent}
    → IsSound a
    → b.buffer ≡ a.buffer
    → b.dedupe ≡ a.dedupe
    → b.panicked ≡ a.panicked
    → IsSound b
moved s p q r = record {
  buffer = subst IsBounded (sym p) s.buffer;
  dedupe = subst IsWell (sym q) s.dedupe;
  buffer_limit = ap (λ (b : UplinkBuffer). b.limit) p ∙ s.buffer_limit;
  dedupe_limit = ap (λ (d : CmdDedupe). d.limit) q ∙ s.dedupe_limit;
  running = r ∙ s.running;
}

-- The set of processed ids after `first_see`.
Progress-dedupe :
    (a : Agent) (id : String) (d : CmdDedupe) (fresh : Bool)
    → first_see a.dedupe id ≡ some (d, fresh)
    → Progress a (record a { dedupe = d })
Progress-dedupe a id d fresh e = record {
  sound = λ s.
      let r : Seen a.dedupe id = first_see-Seen a.dedupe id s.dedupe in
      let same : r.after ≡ d = cc (r.returns, e) in
      record {
        buffer = s.buffer;
        dedupe = subst IsWell same r.well;
        buffer_limit = s.buffer_limit;
        dedupe_limit = ap (λ (c : CmdDedupe). c.limit) (sym same) ∙ r.same_limit ∙ s.dedupe_limit;
        running = s.running;
      };
  applied = λ k. AtMost-refl (get a.versions k);
  config_grows = omega arith;
}

Progress-panic :
    (a : Agent) (id : String)
    → first_see a.dedupe id ≡ none
    → Progress a (record a { panicked = true })
Progress-panic a id e = record {
  sound = λ s. absurd (cc ((first_see-Seen a.dedupe id s.dedupe).returns, e));
  applied = λ k. AtMost-refl (get a.versions k);
  config_grows = omega arith;
}

module _ (w : World) where
  Progress-deduped :
      (a : Agent) (cmd : CommandPayload) (o : Option (CmdDedupe × Bool))
      → first_see a.dedupe cmd.cmd_id ≡ o
      → Progress a (deduped w a cmd o)
  Progress-deduped a cmd none e = Progress-panic a cmd.cmd_id e
  Progress-deduped a cmd (some (d, false)) e = Progress-dedupe a cmd.cmd_id d false e
  Progress-deduped a cmd (some (d, true)) e =
      Progress-trans (Progress-dedupe a cmd.cmd_id d true e)
        (Progress-Quiet (Quiet-apply_command w (record a { dedupe = d }) cmd))

  pub Progress-handle_command :
      (a : Agent) (o : Option CommandPayload) → Progress a (handle_command w a o)
  unfolding handle_command
  Progress-handle_command a none = Progress-Quiet (Quiet-refl a)
  Progress-handle_command a (some cmd) =
      Progress-if (cmd.cmd_id == "") _ _ (Progress-Quiet (Quiet-refl a))
        (Progress-deduped a cmd _ refl)

  Progress-record_version :
      (a : Agent) (device : String) (v : ℤ) → Progress a (record_version w a device v)
  unfolding record_version
  Progress-record_version a device v = record {
    sound = λ s. moved s refl refl refl;
    applied = λ k. set-AtMost _ a.versions device k v;
    config_grows = omega arith;
  }

  Progress-finish :
      (shadow : DesiredShadowPayload) (a : Agent) (r : Agent × Bool)
      → Progress a r.0
      → Progress a (finish w shadow r)
  Progress-finish shadow a (b, false) p = p
  Progress-finish shadow a (b, true) p = Progress-trans p (
      Progress-trans (Progress-record_version b shadow.device_uid shadow.desired_version)
        (Progress-Quiet (Quiet-report_device_state w _ shadow.device_uid)))

  Progress-shadow :
      (a : Agent) (shadow : DesiredShadowPayload) → Progress a (apply_shadow w a shadow)
  unfolding apply_shadow
  Progress-shadow a shadow =
      Progress-if (shadow.device_uid == "") _ _ (Progress-Quiet (Quiet-refl a)) (
        Progress-if _ _ _ (Progress-Quiet (Quiet-report_device_state w a shadow.device_uid)) (
          Progress-if (entity_for_device a.emap shadow.device_uid == "") _ _
            (Progress-Quiet (Quiet-refl a))
            (Progress-finish shadow a _ (Progress-Quiet (Quiet-apply_calls w a _)))))

  pub Progress-handle_desired_shadow :
      (a : Agent) (o : Option DesiredShadowPayload) → Progress a (handle_desired_shadow w a o)
  unfolding handle_desired_shadow
  Progress-handle_desired_shadow a none = Progress-Quiet (Quiet-refl a)
  Progress-handle_desired_shadow a (some shadow) = Progress-shadow a shadow

  Progress-transition :
      (was now : Bool) {a : Agent} (b : Agent) → Progress a b → Progress a (transition was now b)
  Progress-transition true true b p = p
  Progress-transition true false b p = Progress-trans p (Progress-Quiet (Quiet-did _ b))
  Progress-transition false true b p = Progress-trans p (Progress-Quiet (Quiet-did _ b))
  Progress-transition false false b p = p

  Progress-adopted :
      (a : Agent) (cfg : ConfigPayload) (f : Option PersistedConfig) (t : Trace)
      → ltb_ℤ cfg.config_version a.config_version ≡ false
      → Progress a (record (adopted a cfg) { config_file = f; trace = t })
  Progress-adopted a cfg f t newer = record {
    sound = λ s. moved s refl refl refl;
    applied = λ k. AtMost-refl (get a.versions k);
    config_grows = ground arith;
  }

  Progress-saved :
      (a : Agent) (cfg : ConfigPayload)
      → ltb_ℤ cfg.config_version a.config_version ≡ false
      → Progress a (save_config_state w (adopted a cfg) cfg)
  unfolding save_config_state
  Progress-saved a cfg newer =
      Progress-if (w.write_ok a.trace config_state_file) _ _ (Progress-adopted a cfg _ _ newer)
        (Progress-adopted a cfg _ _ newer)

  pub Progress-handle_config :
      (a : Agent) (o : Option ConfigPayload) → Progress a (handle_config w a o)
  unfolding handle_config
  Progress-handle_config a none = Progress-Quiet (Quiet-refl a)
  Progress-handle_config a (some cfg) =
      elim (Bool-cases (ltb_ℤ cfg.config_version a.config_version)) [
        | inl stale ↦ rw stale (Progress-Quiet (Quiet-refl a))
        | inr newer ↦
            rw newer (Progress-transition a.claimed cfg.claimed _ (Progress-saved a cfg newer))
      ]
