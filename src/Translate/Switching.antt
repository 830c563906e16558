-- ===== src/Translate/Switching.antt =====
-- Which way a desired state switches an entity (smart-home-agent/internal/agent/translate.go).
use smart_home_edge.Prelude.{
  ◌≡◌, refl, sym, subst, String, false, Option, none, some, List, [], ◌∷◌, All, All-if, Dict,
  lookup, is_some, ◌==◌, contains,
}
use smart_home_edge.Json.{Json, str, as_string, as_map}
use smart_home_edge.EntityMap.{domain_of}
use smart_home_edge.Translate.{
  ServiceCall, base, passthrough, light_keys, translate_light, translate_fan,
  translate_media_player, translate_on_off, translate_generic, translate_desired, player_volume,
}
use smart_home_edge.Translate.Target.{base-Names, passthrough-Names, translator_cases}

-- The call switches nothing on or off.
unfoldable pub Unswitching : ServiceCall → Type 0
Unswitching c = ((c.service == "turn_on") ≡ false) × ((c.service == "turn_off") ≡ false)

-- The first call switches the entity by the service, and no later call switches it again.
unfoldable pub Switches : (service entity : String) → List ServiceCall → Type 0
Switches service entity [] = ⊥
Switches service entity (c ∷ cs) =
    (c.service ≡ service) × (lookup "entity_id" c.data_map ≡ some (str entity)) × All Unswitching cs

-- What the calls for an entity do with the states that every switchable domain knows.
pub record Obeys (entity state : String) (calls : List ServiceCall) : Type 0 where
  pub turns_off : state ≡ "off" → Switches "turn_off" entity calls
  pub turns_on : state ≡ "on" → Switches "turn_on" entity calls
  pub leaves : state ≡ "" → All Unswitching calls

Obeys-each :
    (entity state : String) (calls : String → List ServiceCall)
    → Switches "turn_off" entity (calls "off")
    → Switches "turn_on" entity (calls "on")
    → All Unswitching (calls "")
    → Obeys entity state (calls state)
Obeys-each entity state calls off on silent = record {
  turns_off = λ e. subst (λ s. Switches "turn_off" entity (calls s)) (sym e) off;
  turns_on = λ e. subst (λ s. Switches "turn_on" entity (calls s)) (sym e) on;
  leaves = λ e. subst (λ s. All Unswitching (calls s)) (sym e) silent;
}

module _ (entity state : String) (attrs : Dict Json) where
  copied :
      (keys : List String)
      → contains "entity_id" keys ≡ false
      → lookup "entity_id" (passthrough (base entity) attrs keys) ≡ some (str entity)
  copied keys other = passthrough-Names entity (base entity) attrs keys other (base-Names entity)

  light : Obeys entity state (translate_light entity state attrs)
  unfolding translate_light Switches
  light =
      Obeys-each entity state (λ s. translate_light entity s attrs) (refl, base-Names entity, tt)
        (refl, copied light_keys refl, tt) tt

  fan : Obeys entity state (translate_fan entity state attrs)
  unfolding translate_fan Switches Unswitching
  fan =
      Obeys-each entity state (λ s. translate_fan entity s attrs) (refl, base-Names entity, tt)
        (refl, copied ("percentage" ∷ "preset_mode" ∷ []) refl, tt)
        (All-if _ (is_some (lookup "percentage" attrs)) _ _ ((refl, refl), tt) tt)

  volume : (o : Option Json) → All Unswitching (player_volume entity o)
  unfolding Unswitching
  volume none = tt
  volume (some v) = ((refl, refl), tt)

  media_player : Obeys entity state (translate_media_player entity state attrs)
  unfolding translate_media_player Switches
  media_player =
      Obeys-each entity state (λ s. translate_media_player entity s attrs)
        (refl, base-Names entity, volume (lookup "volume_level" attrs))
        (refl, base-Names entity, volume (lookup "volume_level" attrs))
        (volume (lookup "volume_level" attrs))

  on_off : (domain : String) → Obeys entity state (translate_on_off domain entity state attrs)
  unfolding translate_on_off Switches
  on_off domain =
      Obeys-each entity state (λ s. translate_on_off domain entity s attrs)
        (refl, base-Names entity, tt) (refl, base-Names entity, tt) tt

  generic : Obeys entity state (translate_generic entity state attrs)
  unfolding translate_generic Switches
  generic =
      Obeys-each entity state (λ s. translate_generic entity s attrs) (refl, base-Names entity, tt)
        (refl, base-Names entity, tt) tt

-- An entity that is no lock, cover or climate device is switched the way its document says: on the
-- state `off` the first call turns exactly that entity off, on the state `on` it turns it on, and
-- no later call switches it; without a state no call does.
pub translate_desired-Obeys :
    (entity : String) (state : Dict Json)
    → (domain_of entity == "lock") ≡ false
    → (domain_of entity == "cover") ≡ false
    → (domain_of entity == "climate") ≡ false
    → Obeys entity (as_string (lookup "state" state)) (translate_desired entity state)
unfolding translate_desired
translate_desired-Obeys entity state =
    translator_cases entity text attrs
      (λ domain calls.
        (domain == "lock") ≡ false
        → (domain == "cover") ≡ false
        → (domain == "climate") ≡ false
        → Obeys entity text calls)
      (domain_of entity) (λ _ _ _. light entity text attrs)
      (λ _ _ _. on_off entity text attrs "switch") (λ _ _ _. fan entity text attrs)
      (λ lock _ _. absurd (cc lock)) (λ _ cover _. absurd (cc cover))
      (λ _ _ climate. absurd (cc climate)) (λ _ _ _. media_player entity text attrs)
      (λ _ _ _. generic entity text attrs)
  where
    text : String
    text = as_string (lookup "state" state)

    attrs : Dict Json
    attrs = as_map (lookup "attributes" state)
