-- ===== src/Agent/Shadow.antt =====
-- The retained desired state of a device (`handleDesiredShadow` of
-- smart-home-agent/internal/agent/agent.go). A message is given decoded, `none` when it is not.
use smart_home_edge.Prelude.{
  String, Bool, true, false, Option, none, some, List, [], ◌∷◌, ℤ, leb_ℤ, ◌==◌, if◌then◌else◌,
}
use smart_home_edge.Contract.{DesiredShadowPayload}
use smart_home_edge.EntityMap.{entity_for_device}
use smart_home_edge.Translate.{ServiceCall, translate_desired}
use smart_home_edge.Versions.{get, set}
use smart_home_edge.Agent.{Agent, World}
use smart_home_edge.Agent.Uplink.{report_device_state}
use smart_home_edge.Agent.Command.{call_service}

-- The calls in order, up to the first that fails; whether all succeeded.
unfoldable pub apply_calls : World → Agent → List ServiceCall → Agent × Bool
unfolding call_service
apply_calls w a [] = (a, true)
apply_calls w a (c ∷ cs) =
    let (a', accepted) = call_service w a c in
    let rest = apply_calls w a' cs in if accepted then rest else (a', false)

abbrev pub versions_file : String
versions_file = "applied-versions.json"

-- `set` writes the file only where it raises the version.
unfoldable pub record_version : World → Agent → String → ℤ → Agent
record_version w a device version = record a {
  versions = set (w.write_ok a.trace versions_file) a.versions device version;
}

abbrev pub converged : Option ℤ → ℤ → Bool
converged none desired = false
converged (some applied) desired = leb_ℤ desired applied

abbrev pub finish : World → DesiredShadowPayload → Agent × Bool → Agent
finish w shadow (a, false) = a
finish w shadow (a, true) =
    report_device_state w (record_version w a shadow.device_uid shadow.desired_version)
      shadow.device_uid

unfoldable pub apply_shadow : World → Agent → DesiredShadowPayload → Agent
unfolding record_version apply_calls
apply_shadow w a shadow =
    let entity = entity_for_device a.emap shadow.device_uid in
    if shadow.device_uid == ""
    then a
    else if converged (get a.versions shadow.device_uid) shadow.desired_version
    then report_device_state w a shadow.device_uid
    else if entity == ""
    then a
    else finish w shadow (apply_calls w a (translate_desired entity shadow.state))

unfoldable pub handle_desired_shadow : World → Agent → Option DesiredShadowPayload → Agent
unfolding apply_shadow
handle_desired_shadow w a none = a
handle_desired_shadow w a (some shadow) = apply_shadow w a shadow
