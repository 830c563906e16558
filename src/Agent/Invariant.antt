-- ===== src/Agent/Invariant.antt =====
-- What every operation of the agent keeps (smart-home-agent/internal/agent): the two bounded
-- structures stay within their bounds, no slice is indexed out of range, and most operations touch
-- nothing but the buffer, the pairing session and the trace.
pub mod Handlers
pub mod Progress
pub mod Updates
pub mod Run
use smart_home_edge.Prelude.{
  ◌≡◌, refl, ◌∙◌, inl, inr, String, Bool, true, false, Option, none, some, List, [], ◌∷◌, ◌≤ℤ◌,
  pos_part, neg_part, ℤ, ◌≤◌, ◌+◌, arith, ◌==◌, if◌then◌else◌, Option-cases,
}
use smart_home_edge.Buffer.{Pending, UplinkBuffer, push, drain}
use smart_home_edge.Buffer.Window.{
  IsBounded, push_window, push-IsBounded, drain-IsBounded, limit-drain,
}
use smart_home_edge.Dedupe.Window.{IsWell}
use smart_home_edge.EntityMap.{entity_for_device, device_for_entity, devices}
use smart_home_edge.Contract.{CommandAckStatus, Severity}
use smart_home_edge.Pairing
use smart_home_edge.Agent.{
  Payload, HaState, StateChange, Effect, Trace, Agent, World, did, uplink_buffer_limit,
  cmd_dedupe_limit,
}
use smart_home_edge.Agent.Uplink.{
  message, hold, send, deliver, publish_uplink, ack_command, publish_event, emit_pairing_event,
  handle_state_change, report_device_state, read_back, report_all, reconcile_reported_state,
  send_all, flush,
}

pub record IsSound (a : Agent) : Type 0 where
  pub buffer : IsBounded a.buffer
  pub dedupe : IsWell a.dedupe
  pub buffer_limit : a.buffer.limit ≡ uplink_buffer_limit
  pub dedupe_limit : a.dedupe.limit ≡ cmd_dedupe_limit
  pub running : a.panicked ≡ false

-- Only the buffer, the pairing session, the inventory hash, the trace and a panic may differ.
pub record Quiet (a b : Agent) : Type 0 where
  pub sound : IsSound a → IsSound b
  pub uid : b.uid ≡ a.uid
  pub versions : b.versions ≡ a.versions
  pub dedupe : b.dedupe ≡ a.dedupe
  pub emap : b.emap ≡ a.emap
  pub claimed : b.claimed ≡ a.claimed
  pub config_version : b.config_version ≡ a.config_version
  pub config_file : b.config_file ≡ a.config_file

pub Quiet-refl : (a : Agent) → Quiet a a
Quiet-refl a = record {
  sound = λ s. s;
  uid = refl;
  versions = refl;
  dedupe = refl;
  emap = refl;
  claimed = refl;
  config_version = refl;
  config_file = refl;
}

pub Quiet-trans : {a b c : Agent} → Quiet a b → Quiet b c → Quiet a c
Quiet-trans p q = record {
  sound = λ s. q.sound (p.sound s);
  uid = q.uid ∙ p.uid;
  versions = q.versions ∙ p.versions;
  dedupe = q.dedupe ∙ p.dedupe;
  emap = q.emap ∙ p.emap;
  claimed = q.claimed ∙ p.claimed;
  config_version = q.config_version ∙ p.config_version;
  config_file = q.config_file ∙ p.config_file;
}

pub Quiet-if :
    (t : Bool) {a : Agent} (b c : Agent) → Quiet a b → Quiet a c → Quiet a (if t then b else c)
Quiet-if true b c p q = p
Quiet-if false b c p q = q

-- A change of what a quiet operation may change.
pub changed :
    (a : Agent) (b : UplinkBuffer) (hash : String) (m : Option Pairing.Manager) (p : Bool)
    (t : Trace)
    → (IsSound a → IsBounded b × (b.limit ≡ a.buffer.limit) × (p ≡ false))
    → Quiet a (record a { buffer = b; inventory_hash = hash; pairing = m; panicked = p; trace = t })
changed a b hash m p t keeps = record {
  sound = λ s. record {
    buffer = (keeps s).0;
    dedupe = s.dedupe;
    buffer_limit = (keeps s).1 ∙ s.buffer_limit;
    dedupe_limit = s.dedupe_limit;
    running = (keeps s).2;
  };
  uid = refl;
  versions = refl;
  dedupe = refl;
  emap = refl;
  claimed = refl;
  config_version = refl;
  config_file = refl;
}

pub Quiet-did : (e : Effect) (a : Agent) → Quiet a (did e a)
Quiet-did e a =
    changed a a.buffer a.inventory_hash a.pairing a.panicked (e ∷ a.trace)
      (λ s. (s.buffer, refl, s.running))

pub Quiet-hash : (a : Agent) (hash : String) → Quiet a (record a { inventory_hash = hash })
Quiet-hash a hash =
    changed a a.buffer hash a.pairing a.panicked a.trace (λ s. (s.buffer, refl, s.running))

pub Quiet-pairing : (a : Agent) (m : Option Pairing.Manager) → Quiet a (record a { pairing = m })
Quiet-pairing a m =
    changed a a.buffer a.inventory_hash m a.panicked a.trace (λ s. (s.buffer, refl, s.running))

-- A sound agent's buffer takes a message without a panic.
pub Quiet-hold : (a : Agent) (p : Pending) → Quiet a (hold a p)
unfolding hold
Quiet-hold a p = elim (Option-cases (push a.buffer p)) [
  | inl lost ↦ rw lost (
      changed a a.buffer a.inventory_hash a.pairing true a.trace
        (λ s. absurd (cc (push_window a.buffer p s.buffer, lost))))
  | inr (b, held) ↦ rw held (
      changed a b a.inventory_hash a.pairing a.panicked a.trace (λ s. (
        (push-IsBounded a.buffer p s.buffer held).0,
        (push-IsBounded a.buffer p s.buffer held).1,
        s.running,
      )))
]

module _ (w : World) where
  pub Quiet-send : (a : Agent) (p : Pending) → Quiet a (send w a p)
  unfolding send
  Quiet-send a p = Quiet-did _ a

  pub Quiet-deliver : (a : Agent) (p : Pending) → Quiet a (deliver w a p)
  unfolding deliver
  Quiet-deliver a p =
      Quiet-if (w.connected a.trace) _ _
        (Quiet-if (w.publish_ok a.trace p) _ _ (Quiet-did _ a)
          (Quiet-trans (Quiet-did _ a) (Quiet-hold _ p)))
        (Quiet-hold a p)

  pub Quiet-publish_uplink :
      (a : Agent) (topic : String) (payload : Payload) (retain : Bool)
      → Quiet a (publish_uplink w a topic payload retain)
  unfolding publish_uplink
  Quiet-publish_uplink a topic payload retain = elim (Option-cases (w.marshal payload)) [
    | inl failed ↦ rw failed (Quiet-refl a)
    | inr (raw, encoded) ↦ rw encoded (Quiet-deliver a (message topic raw retain))
  ]

  pub Quiet-ack_command :
      (a : Agent) (id : String) (status : CommandAckStatus) → Quiet a (ack_command w a id status)
  unfolding ack_command
  Quiet-ack_command a id status =
      elim (Option-cases (w.marshal (Payload.ack (record { cmd_id = id; status = status })))) [
        | inl failed ↦ rw failed (Quiet-refl a)
        | inr (raw, encoded) ↦
            rw encoded (Quiet-if (w.connected a.trace) _ _ (Quiet-did _ a) (Quiet-hold a _))
      ]

  pub Quiet-publish_event :
      (a : Agent) (kind id : String) (severity : Severity) (device : String)
      → Quiet a (publish_event w a kind id severity device)
  unfolding publish_event
  Quiet-publish_event a kind id severity device =
      Quiet-if _ _ _ (Quiet-refl a) (Quiet-publish_uplink a _ _ false)

  pub Quiet-emit_pairing_event :
      (a : Agent) (session : String) (ev : Pairing.Event)
      → Quiet a (emit_pairing_event w a session ev)
  unfolding emit_pairing_event
  Quiet-emit_pairing_event a session ev = Quiet-publish_uplink a _ _ false

  pub Quiet-handle_state_change :
      (a : Agent) (sc : StateChange) → Quiet a (handle_state_change w a sc)
  unfolding handle_state_change
  Quiet-handle_state_change a sc =
      Quiet-if _ _ _ (Quiet-refl a)
        (Quiet-if _ _ _ (Quiet-refl a) (Quiet-publish_uplink a _ _ false))

  pub Quiet-report_device_state :
      (a : Agent) (device : String) → Quiet a (report_device_state w a device)
  unfolding report_device_state
  Quiet-report_device_state a device = Quiet-if _ _ _ (Quiet-refl a) (
      Quiet-trans (Quiet-did _ a)
        (read _ (w.entity_state a.trace (entity_for_device a.emap device))))
    where
      read : (b : Agent) (o : Option HaState) → Quiet b (read_back w b device o)
      read b none = Quiet-refl b
      read b (some st) = Quiet-publish_uplink b _ _ false

  pub Quiet-report_all : (a : Agent) (ds : List String) → Quiet a (report_all w a ds)
  unfolding report_all
  Quiet-report_all a [] = Quiet-refl a
  Quiet-report_all a (d ∷ ds) =
      Quiet-trans (Quiet-report_device_state a d) (Quiet-report_all (report_device_state w a d) ds)

  pub Quiet-reconcile : (a : Agent) → Quiet a (reconcile_reported_state w a)
  unfolding reconcile_reported_state
  Quiet-reconcile a = Quiet-report_all a (devices a.emap)

  Quiet-send_all : (a : Agent) (ps : List Pending) → Quiet a (send_all w a ps)
  unfolding send_all
  Quiet-send_all a [] = Quiet-refl a
  Quiet-send_all a (p ∷ ps) = Quiet-trans (Quiet-send a p) (Quiet-send_all (send w a p) ps)

  pub Quiet-flush : (a : Agent) → Quiet a (flush w a)
  unfolding flush
  Quiet-flush a = Quiet-trans emptied (Quiet-send_all _ (drain a.buffer).0)
    where
      emptied : Quiet a (record a { buffer = (drain a.buffer).1 })
      emptied =
          changed a (drain a.buffer).1 a.inventory_hash a.pairing a.panicked a.trace
            (λ s. (drain-IsBounded a.buffer s.buffer, limit-drain a.buffer, s.running))
