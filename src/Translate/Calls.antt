-- ===== src/Translate/Calls.antt =====
-- What the calls of a translation carry
-- (smart-home-agent/internal/agent/translate.go).
use smart_home_edge.Prelude.{
  ◌≡◌, refl, inl, inr, String, false, ◌&&◌, none, some, List, [], ◌∷◌, arith, Dict, lookup, insert,
  lookup-insert, lookup-insert_self, contains, is_some, ◌==◌, eq_iff, if◌then◌else◌, Option-cases,
}
use smart_home_edge.Json.{Json, str}
use smart_home_edge.Translate.{
  base, passthrough, call, light_keys, translate_light, translate_climate,
}

lookup-passthrough :
    (k : String) (d attrs : Dict Json) (keys : List String)
    → lookup k (passthrough d attrs keys)
      ≡ (if contains k keys && is_some (lookup k attrs) then lookup k attrs else lookup k d)
unfolding passthrough
lookup-passthrough k d attrs [] = refl
lookup-passthrough k d attrs (key ∷ keys) = elim (Option-cases (lookup key attrs)) [
  | inl absent ↦ rw absent (ground (arith, lookup-passthrough k d attrs keys, eq_iff key k))
  | inr (v, found) ↦ rw found (
      ground (
        arith,
        lookup-passthrough k (insert key v d) attrs keys,
        lookup-insert key k v d,
        eq_iff key k,
      ))
]

lookup-base :
    (entity k : String)
    → lookup k (base entity) ≡ (if "entity_id" == k then some (str entity) else none)
unfolding base lookup
lookup-base entity k = refl

-- A light that is neither left alone nor turned off is turned on by one call, whose data holds
-- the entity, exactly the recognized attributes of the document with their values, and no more.
pub light_on :
    (entity state k : String) (attrs : Dict Json)
    → (state == "") ≡ false
    → (state == "off") ≡ false
    → (d : Dict Json) × (translate_light entity state attrs ≡ call "light" "turn_on" d ∷ [])
      × (lookup k d ≡ (
          if contains k light_keys && is_some (lookup k attrs)
          then lookup k attrs
          else if "entity_id" == k
          then some (str entity)
          else none))
unfolding translate_light
light_on entity state k attrs given on = (
  passthrough (base entity) attrs light_keys,
  rw (given, on),
  rw (lookup-passthrough k (base entity) attrs light_keys) (rw lookup-base),
)

-- A climate document with a mode and a temperature sets the mode first and the temperature second.
pub climate_order :
    (entity state : String) (attrs : Dict Json) (v : Json)
    → (state == "") ≡ false
    → lookup "temperature" attrs ≡ some v
    → (d d' : Dict Json) × (translate_climate entity state attrs
        ≡ call "climate" "set_hvac_mode" d ∷ call "climate" "set_temperature" d' ∷ [])
      × (lookup "hvac_mode" d ≡ some (str state))
      × (lookup "temperature" d' ≡ some v)
unfolding translate_climate
climate_order entity state attrs v given found = (
  insert "hvac_mode" (str state) (base entity),
  passthrough (insert "temperature" v (base entity)) attrs
      ("target_temp_high" ∷ "target_temp_low" ∷ []),
  rw (given, found),
  lookup-insert_self "hvac_mode" (str state) (base entity),
  rw lookup-passthrough (lookup-insert_self "temperature" v (base entity)),
)
