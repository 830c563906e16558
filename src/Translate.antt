-- ===== src/Translate.antt =====
-- From a desired-state document to Home Assistant service calls
-- (smart-home-agent/internal/agent/translate.go). A document and a call's data are Go maps; the
-- table of translators is the dispatch on the entity's domain.
pub mod Target
pub mod Calls
pub mod Switching
use smart_home_edge.Prelude.{
  String, Bool, true, false, ◌||◌, Option, none, some, List, [], ◌∷◌, ◌++◌, Dict, lookup, insert,
  is_some, ◌==◌, if◌then◌else◌,
}
use smart_home_edge.Json.{Json, str, as_string, as_map}
use smart_home_edge.EntityMap.{domain_of}

pub record ServiceCall : Type 0 where
  pub domain : String
  pub service : String
  pub data_map : Dict Json

unfoldable pub base : String → Dict Json
base entity = ("entity_id", str entity) ∷ []

abbrev copy_found : Dict Json → String → Option Json → Dict Json
copy_found dst key none = dst
copy_found dst key (some v) = insert key v dst

-- Absent keys are skipped; a nil map has none.
unfoldable pub passthrough : Dict Json → Dict Json → List String → Dict Json
passthrough dst attrs [] = dst
passthrough dst attrs (key ∷ keys) = passthrough (copy_found dst key (lookup key attrs)) attrs keys

abbrev pub call : String → String → Dict Json → ServiceCall
call domain service d = record { domain = domain; service = service; data_map = d }

abbrev pub light_keys : List String
light_keys =
    "brightness" ∷ "brightness_pct" ∷ "color_temp" ∷ "color_temp_kelvin" ∷ "rgb_color" ∷ "hs_color"
    ∷ "xy_color" ∷ "color_name" ∷ "effect" ∷ "transition" ∷ []

unfoldable pub translate_light : String → String → Dict Json → List ServiceCall
translate_light entity state attrs =
    if state == ""
    then []
    else if state == "off"
    then call "light" "turn_off" (base entity) ∷ []
    else call "light" "turn_on" (passthrough (base entity) attrs light_keys) ∷ []

unfoldable pub translate_fan : String → String → Dict Json → List ServiceCall
translate_fan entity state attrs =
    if state == ""
    then (if is_some (lookup "percentage" attrs)
        then call "fan" "set_percentage" (passthrough (base entity) attrs ("percentage" ∷ [])) ∷ []
        else [])
    else if state == "off"
    then call "fan" "turn_off" (base entity) ∷ []
    else call "fan" "turn_on" (passthrough (base entity) attrs ("percentage" ∷ "preset_mode" ∷ []))
      ∷ []

unfoldable pub translate_lock : String → String → Dict Json → List ServiceCall
translate_lock entity state attrs =
    if state == "locked"
    then call "lock" "lock" (base entity) ∷ []
    else if state == "unlocked"
    then call "lock" "unlock" (base entity) ∷ []
    else []

abbrev cover_state : String → String → List ServiceCall
cover_state entity state =
    if state == "open"
    then call "cover" "open_cover" (base entity) ∷ []
    else if state == "closed"
    then call "cover" "close_cover" (base entity) ∷ []
    else []

abbrev cover_at : String → String → Option Json → List ServiceCall
cover_at entity state (some v) =
    call "cover" "set_cover_position" (insert "position" v (base entity)) ∷ []
cover_at entity state none = cover_state entity state

-- An explicit position wins over the open/closed state.
unfoldable pub translate_cover : String → String → Dict Json → List ServiceCall
translate_cover entity state attrs = cover_at entity state (lookup "position" attrs)

abbrev climate_mode : String → String → List ServiceCall
climate_mode entity state =
    if state == ""
    then []
    else call "climate" "set_hvac_mode" (insert "hvac_mode" (str state) (base entity)) ∷ []

abbrev climate_temperature : String → Dict Json → Option Json → List ServiceCall
climate_temperature entity attrs none = []
climate_temperature entity attrs (some v) =
    call "climate" "set_temperature" (
      passthrough (insert "temperature" v (base entity)) attrs
        ("target_temp_high" ∷ "target_temp_low" ∷ []))
    ∷ []

unfoldable pub translate_climate : String → String → Dict Json → List ServiceCall
translate_climate entity state attrs =
    climate_mode entity state ++ climate_temperature entity attrs (lookup "temperature" attrs)

abbrev player_state : String → String → List ServiceCall
player_state entity state =
    if state == "off"
    then call "media_player" "turn_off" (base entity) ∷ []
    else if (state == "on") || (state == "idle")
    then call "media_player" "turn_on" (base entity) ∷ []
    else if state == "playing"
    then call "media_player" "media_play" (base entity) ∷ []
    else if state == "paused"
    then call "media_player" "media_pause" (base entity) ∷ []
    else []

abbrev player_volume : String → Option Json → List ServiceCall
player_volume entity none = []
player_volume entity (some v) =
    call "media_player" "volume_set" (insert "volume_level" v (base entity)) ∷ []

unfoldable pub translate_media_player : String → String → Dict Json → List ServiceCall
translate_media_player entity state attrs =
    player_state entity state ++ player_volume entity (lookup "volume_level" attrs)

unfoldable pub translate_on_off : String → String → String → Dict Json → List ServiceCall
translate_on_off domain entity state attrs =
    if state == ""
    then []
    else call domain (if state == "off" then "turn_off" else "turn_on") (base entity) ∷ []

unfoldable pub translate_generic : String → String → Dict Json → List ServiceCall
translate_generic entity state attrs =
    if state == ""
    then []
    else call "homeassistant" (if state == "off" then "turn_off" else "turn_on") (base entity) ∷ []

-- The table `domainTranslators`, with the fallback for a domain that it lacks.
unfoldable pub translator : String → String → String → Dict Json → List ServiceCall
translator domain =
    if domain == "light"
    then translate_light
    else if domain == "switch"
    then translate_on_off "switch"
    else if domain == "fan"
    then translate_fan
    else if domain == "lock"
    then translate_lock
    else if domain == "cover"
    then translate_cover
    else if domain == "climate"
    then translate_climate
    else if domain == "media_player"
    then translate_media_player
    else translate_generic

unfoldable pub translate_desired : String → Dict Json → List ServiceCall
translate_desired entity state =
    translator (domain_of entity) entity (as_string (lookup "state" state))
      (as_map (lookup "attributes" state))
