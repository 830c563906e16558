-- ===== src/Agent/Command.antt =====
-- One-shot commands of the cloud (`handleCommand` and `commandExpired` of
-- smart-home-agent/internal/agent/agent.go). A message is given decoded, `none` when it is not.
use text.Mathlib.Text.{starts_with}
use smart_home_edge.Prelude.{
  String, Bool, true, false, Option, none, some, [], ◌∷◌, ℤ, pos, leb_ℤ, ltb_ℤ, ◌+ℤ◌, seconds, Dict,
  insert, ◌==◌, if◌then◌else◌,
}
use smart_home_edge.Json.{Json}
use smart_home_edge.Contract.{CommandPayload, acked, CommandAckStatus}
use smart_home_edge.EntityMap.{entity_for_device}
use smart_home_edge.Translate.{ServiceCall, base}
use smart_home_edge.Dedupe.{CmdDedupe, first_see}
use smart_home_edge.Agent.{called, Agent, World, did}
use smart_home_edge.Agent.Uplink.{ack_command}
use smart_home_edge.Agent.Action.{split_action}
use smart_home_edge.Agent.PairingCommand.{handle_pairing_command}

-- RFC 3339, or the broader layout.
abbrev pub issued_at : World → String → Option ℤ
issued_at w ts = elim (w.parse_rfc3339 ts) [ some t ↦ some t | none ↦ w.parse_offset ts ]

abbrev pub past : ℤ → ℤ → Option ℤ → Bool
past now ttl none = false
past now ttl (some issued) = ltb_ℤ (issued +ℤ seconds ttl) now

-- A time that cannot be read does not expire.
unfoldable pub command_expired : World → Agent → CommandPayload → Bool
command_expired w a cmd =
    if leb_ℤ cmd.ttl_sec (pos 0)
    then false
    else past (w.now a.trace) cmd.ttl_sec (issued_at w cmd.ts)

-- The parameters are written over the data, the entity id included.
unfoldable pub with_params : Dict Json → Dict Json → Dict Json
with_params d [] = d
with_params d ((k, v) ∷ rest) = with_params (insert k v d) rest

-- `a.ha.CallService(...)` and whether it succeeded.
unfoldable pub call_service : World → Agent → ServiceCall → Agent × Bool
call_service w a c = (did (called c (w.call_ok a.trace c)) a, w.call_ok a.trace c)

abbrev pub answered : World → String → Agent × Bool → Agent
answered w id (a, accepted) =
    ack_command w a id (if accepted then acked else CommandAckStatus.failed)

abbrev pub act : World → Agent → CommandPayload → String → Option (String × String) → Agent
act w a cmd entity none = ack_command w a cmd.cmd_id CommandAckStatus.failed
act w a cmd entity (some (domain, service)) = answered w cmd.cmd_id (
    call_service w a (record {
      domain = domain;
      service = service;
      data_map = with_params (base entity) cmd.params;
    }))

-- The part after the command was found to be new.
unfoldable pub apply_command : World → Agent → CommandPayload → Agent
unfolding call_service command_expired handle_pairing_command
apply_command w a cmd =
    let entity = entity_for_device a.emap cmd.device_uid in
    if command_expired w a cmd
    then a
    else if starts_with cmd.action "pairing."
    then handle_pairing_command w a cmd
    else if entity == ""
    then ack_command w a cmd.cmd_id CommandAckStatus.failed
    else act w a cmd entity (split_action cmd.action)

abbrev pub deduped : World → Agent → CommandPayload → Option (CmdDedupe × Bool) → Agent
deduped w a cmd none = record a { panicked = true }
deduped w a cmd (some (d, false)) = record a { dedupe = d }
deduped w a cmd (some (d, true)) = apply_command w (record a { dedupe = d }) cmd

unfoldable pub handle_command : World → Agent → Option CommandPayload → Agent
unfolding apply_command
handle_command w a none = a
handle_command w a (some cmd) =
    if cmd.cmd_id == "" then a else deduped w a cmd (first_see a.dedupe cmd.cmd_id)
