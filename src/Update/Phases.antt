-- ===== src/Update/Phases.antt =====
-- The phases of an update: add-ons, OS, Core and the agent itself
-- (smart-home-agent/internal/agent/update.go).
use smart_home_edge.Prelude.{
  String, Bool, true, false, not, ◌&&◌, Option, none, some, List, [], ◌∷◌, ◌==◌, if◌then◌else◌,
}
use smart_home_edge.Fleet.{Addon, Manifest, agent_match}
use smart_home_edge.Supervisor.{
  Api, Result, ok, err, Exec, pure, raise, ◌>>=◌, ◌>>◌, AddonInfo, VersionInfo,
  add_store_repository, resolve_addon_slug, addon_info, install_addon, update_addon_latest,
  set_addon_auto_update, os_info, core_info, update_os_latest, update_core_latest, versions_equal,
}

abbrev pub agent_self_slug : String
agent_self_slug = "self"

module _ (api : Api) where
  unfoldable pub update_available : VersionInfo → Bool
  unfolding versions_equal
  update_available info =
      not (info.latest == "") && not (versions_equal api info.version info.latest)

  -- Its failure is only logged.
  unfoldable pub enable_auto_update : String → Bool → Exec (Unit {0})
  unfolding set_addon_auto_update
  enable_auto_update slug currently_on l =
      if currently_on then (ok tt, l) else (ok tt, (set_addon_auto_update api slug true l).1)

  -- The slug, after the add-on's repository was added where it is not in the store.
  abbrev pub resolve_or_add : Addon → Option String → Exec (Option String)
  resolve_or_add dep (some slug) = pure (some slug)
  resolve_or_add dep none =
      if not dep.core && not (dep.repository == "")
      then (add_store_repository api dep.repository >> resolve_addon_slug api dep)
      else pure none

  abbrev pub installed_info : String → AddonInfo → Exec AddonInfo
  installed_info slug info =
      if info.installed then pure info else (install_addon api slug >> addon_info api slug)

  abbrev pub bring_to_latest : Option String → Exec (Unit {0})
  bring_to_latest none = pure tt
  bring_to_latest (some slug) = do
    found ← addon_info api slug
    info ← installed_info slug found
    enable_auto_update slug info.auto_update
    (if info.update_available then update_addon_latest api slug else pure tt)

  unfoldable pub update_addon : Addon → Exec (Unit {0})
  unfolding enable_auto_update resolve_addon_slug addon_info add_store_repository install_addon
      update_addon_latest
  update_addon dep = do
    first ← resolve_addon_slug api dep
    slug ← resolve_or_add dep first
    bring_to_latest slug

  unfoldable pub update_each : List Addon → Exec (Unit {0})
  unfolding update_addon
  update_each [] = pure tt
  update_each (dep ∷ rest) =
      if dep.match == agent_match then update_each rest else (update_addon dep >> update_each rest)

  -- `fleet.Default()` has decoded the manifest, or failed.
  unfoldable pub update_addons : Result Manifest → Exec (Unit {0})
  unfolding update_each
  update_addons (err e) = raise e
  update_addons (ok m) = update_each m.addons

  -- Whether an update was started.
  unfoldable pub update_os : Exec Bool
  unfolding os_info update_available update_os_latest
  update_os = do
    info ← os_info api
    (if not (update_available info) then pure false else (update_os_latest api >> pure true))

  unfoldable pub update_core : Exec Bool
  unfolding core_info update_available update_core_latest
  update_core = do
    info ← core_info api
    (if not (update_available info) then pure false else (update_core_latest api >> pure true))

  unfoldable pub update_self : Exec Bool
  unfolding addon_info enable_auto_update update_addon_latest
  update_self = do
    info ← addon_info api agent_self_slug
    (if not info.installed then pure false else (do
      enable_auto_update agent_self_slug info.auto_update
      (if not info.update_available
          then pure false
          else (update_addon_latest api agent_self_slug >> pure true))))

  -- The phases, up to the first that fails or that restarts the unit.
  unfoldable pub phases : Result Manifest → Exec Bool
  unfolding update_addons update_os update_core update_self
  phases manifest = do
    update_addons manifest
    os ← update_os
    (if os then pure true else (do core ← update_core; (if core then pure true else update_self)))
