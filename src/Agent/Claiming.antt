-- ===== src/Agent/Claiming.antt =====
-- Config documents may arrive in any order (smart-home-agent/internal/agent/config_state.go:
-- `handleConfig`).
use smart_home_edge.Prelude.{◌≡◌, refl, inl, inr, Bool, true, false, some, ltb_ℤ, arith, Bool-cases}
use smart_home_edge.Contract.{ConfigPayload}
use smart_home_edge.EntityMap
use smart_home_edge.Agent.{Agent, World}
use smart_home_edge.Agent.Config.{
  to_entries, transition, adopted, save_config_state, config_state_file, handle_config,
}

-- The agent's claim status, config version and entity map are those of the document.
pub record Adopts (cfg : ConfigPayload) (a : Agent) : Type 0 where
  pub claimed : a.claimed ≡ cfg.claimed
  pub version : a.config_version ≡ cfg.config_version
  pub map : a.emap ≡ EntityMap.new (to_entries cfg.entity_map)

module _ (w : World) where
  transition-Adopts :
      (cfg : ConfigPayload) (was is : Bool) (a : Agent)
      → Adopts cfg a
      → Adopts cfg (transition was is a)
  transition-Adopts cfg true true a h = h
  transition-Adopts cfg false false a h = h
  transition-Adopts cfg false true a h = record {
    claimed = h.claimed;
    version = h.version;
    map = h.map;
  }
  transition-Adopts cfg true false a h = record {
    claimed = h.claimed;
    version = h.version;
    map = h.map;
  }

  saved-Adopts :
      (a : Agent) (cfg : ConfigPayload) → Adopts cfg (save_config_state w (adopted a cfg) cfg)
  unfolding save_config_state
  saved-Adopts a cfg = elim (Bool-cases (w.write_ok a.trace config_state_file)) [
    | inl written ↦ rw written (record { claimed = refl; version = refl; map = refl })
    | inr failed ↦ rw failed (record { claimed = refl; version = refl; map = refl })
  ]

  handle_config-Adopts :
      (a : Agent) (cfg : ConfigPayload)
      → ltb_ℤ cfg.config_version a.config_version ≡ false
      → Adopts cfg (handle_config w a (some cfg))
  unfolding handle_config
  handle_config-Adopts a cfg current =
      rw current (transition-Adopts cfg a.claimed cfg.claimed _ (saved-Adopts a cfg))

  stale_ignored :
      (a : Agent) (cfg : ConfigPayload)
      → ltb_ℤ cfg.config_version a.config_version ≡ true
      → handle_config w a (some cfg) ≡ a
  unfolding handle_config
  stale_ignored a cfg stale = rw stale refl

  -- Of two config documents that are both no older than the agent's config, the newer one decides
  -- the claim status, the config version and the entity map, in whichever order the two arrive.
  pub handle_config_order :
      (a : Agent) (old new : ConfigPayload)
      → ltb_ℤ old.config_version a.config_version ≡ false
      → ltb_ℤ old.config_version new.config_version ≡ true
      → Adopts new (handle_config w (handle_config w a (some old)) (some new))
        × Adopts new (handle_config w (handle_config w a (some new)) (some old))
  handle_config_order a old new current newer =
      let first = handle_config-Adopts a old current in
      let later : ltb_ℤ new.config_version a.config_version ≡ false = ground arith in
      let second = handle_config-Adopts a new later in
      let above : ltb_ℤ new.config_version (handle_config w a (some old)).config_version ≡ false =
        rw first.version (ground arith) in
      let below : ltb_ℤ old.config_version (handle_config w a (some new)).config_version ≡ true =
        rw second.version newer in
      (
        handle_config-Adopts (handle_config w a (some old)) new above,
        rw (stale_ignored (handle_config w a (some new)) old below) second,
      )
