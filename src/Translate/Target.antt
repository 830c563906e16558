-- ===== src/Translate/Target.antt =====
-- Every call of a translation is aimed at the entity it was made for
-- (smart-home-agent/internal/agent/translate.go).
use smart_home_edge.Prelude.{
  ◌≡◌, refl, ◌⊎◌, inl, inr, String, false, some, List, [], ◌∷◌, arith, All, All-append, All-if,
  Dict, lookup, insert, lookup-insert, contains, ◌==◌, eq_iff, if◌then◌else◌, Bool-cases,
  Option-cases, is_some, ◌||◌, subst, sym,
}
use smart_home_edge.Json.{Json, str, as_string, as_map}
use smart_home_edge.EntityMap.{domain_of}
use smart_home_edge.Translate.{
  ServiceCall, base, passthrough, call, light_keys, translate_light, translate_fan, translate_lock,
  translate_cover, translate_climate, translate_media_player, translate_on_off, translate_generic,
  translator, translate_desired, climate_mode, player_state,
}

-- The call acts in the domain, or in the helper domain that fans out to it, and names the entity.
pub record IsAimed (domain entity : String) (c : ServiceCall) : Type 0 where
  pub acts_in : (c.domain ≡ domain) ⊎ (c.domain ≡ "homeassistant")
  pub names : lookup "entity_id" c.data_map ≡ some (str entity)

abbrev pub Names : String → Dict Json → Type 0
Names entity d = lookup "entity_id" d ≡ some (str entity)

pub base-Names : (entity : String) → Names entity (base entity)
unfolding base lookup
base-Names entity = refl

insert-Names :
    (entity key : String) (v : Json) (d : Dict Json)
    → (key == "entity_id") ≡ false
    → Names entity d
    → Names entity (insert key v d)
insert-Names entity key v d other h = rw lookup-insert (rw other h)

pub passthrough-Names :
    (entity : String) (d attrs : Dict Json) (keys : List String)
    → contains "entity_id" keys ≡ false
    → Names entity d
    → Names entity (passthrough d attrs keys)
unfolding passthrough
passthrough-Names entity d attrs [] other h = h
passthrough-Names entity d attrs (key ∷ keys) other h = elim (Option-cases (lookup key attrs)) [
  | inl absent ↦ rw absent (passthrough-Names entity d attrs keys (ground arith) h)
  | inr (v, found) ↦ rw found (
      passthrough-Names entity (insert key v d) attrs keys (ground arith)
        (insert-Names entity key v d (ground arith) h))
]

-- The calls of a translator for its own domain.
abbrev Aimed : String → String → List ServiceCall → Type 0
Aimed domain entity = All (IsAimed domain entity)

aim :
    (domain entity service : String) (d : Dict Json)
    → Names entity d
    → IsAimed domain entity (call domain service d)
aim domain entity service d h = record { acts_in = inl refl; names = h }

module _ (entity state : String) (attrs : Dict Json) where
  light : Aimed "light" entity (translate_light entity state attrs)
  unfolding translate_light
  light = All-if _ (state == "") _ _ tt (
      All-if _ (state == "off") _ _ (aim "light" entity "turn_off" _ (base-Names entity), tt)
        (
          aim "light" entity "turn_on" _
              (passthrough-Names entity (base entity) attrs light_keys refl (base-Names entity)),
          tt,
        ))

  fan : Aimed "fan" entity (translate_fan entity state attrs)
  unfolding translate_fan
  fan =
      All-if _ (state == "") _ _
        (All-if _ (is_some (lookup "percentage" attrs)) _ _
          (aim "fan" entity "set_percentage" _ (copied ("percentage" ∷ []) refl), tt) tt)
        (All-if _ (state == "off") _ _ (aim "fan" entity "turn_off" _ (base-Names entity), tt)
          (aim "fan" entity "turn_on" _ (copied ("percentage" ∷ "preset_mode" ∷ []) refl), tt))
    where
      copied :
          (keys : List String)
          → contains "entity_id" keys ≡ false
          → Names entity (passthrough (base entity) attrs keys)
      copied keys other =
          passthrough-Names entity (base entity) attrs keys other (base-Names entity)

  lock : Aimed "lock" entity (translate_lock entity state attrs)
  unfolding translate_lock
  lock =
      All-if _ (state == "locked") _ _ (aim "lock" entity "lock" _ (base-Names entity), tt)
        (All-if _ (state == "unlocked") _ _ (aim "lock" entity "unlock" _ (base-Names entity), tt)
          tt)

  cover : Aimed "cover" entity (translate_cover entity state attrs)
  unfolding translate_cover
  cover = elim (Option-cases (lookup "position" attrs)) [
    | inl absent ↦ rw absent (
        All-if _ (state == "open") _ _ (aim "cover" entity "open_cover" _ (base-Names entity), tt)
          (All-if _ (state == "closed") _ _
            (aim "cover" entity "close_cover" _ (base-Names entity), tt) tt))
    | inr (v, found) ↦ rw found (
      aim "cover" entity "set_cover_position" _
          (insert-Names entity "position" v (base entity) refl (base-Names entity)),
      tt,
    )
  ]

  climate : Aimed "climate" entity (translate_climate entity state attrs)
  unfolding translate_climate
  climate =
      All-append _ (climate_mode entity state) _
        (All-if _ (state == "") _ _ tt (
          aim "climate" entity "set_hvac_mode" _
              (insert-Names entity "hvac_mode" (str state) (base entity) refl (base-Names entity)),
          tt,
        ))
        (elim (Option-cases (lookup "temperature" attrs)) [
          | inl absent ↦ rw absent tt
          | inr (v, found) ↦ rw found (
            aim "climate" entity "set_temperature" _ (
                passthrough-Names entity (insert "temperature" v (base entity)) attrs
                  ("target_temp_high" ∷ "target_temp_low" ∷ []) refl
                  (insert-Names entity "temperature" v (base entity) refl (base-Names entity))),
            tt,
          )
        ])

  media_player : Aimed "media_player" entity (translate_media_player entity state attrs)
  unfolding translate_media_player
  media_player =
      All-append _ (player_state entity state) _
        (All-if _ (state == "off") _ _ (plain "turn_off") (
          All-if _ ((state == "on") || (state == "idle")) _ _ (plain "turn_on") (
            All-if _ (state == "playing") _ _ (plain "media_play")
              (All-if _ (state == "paused") _ _ (plain "media_pause") tt))))
        (elim (Option-cases (lookup "volume_level" attrs)) [
          | inl absent ↦ rw absent tt
          | inr (v, found) ↦ rw found (
            aim "media_player" entity "volume_set" _
                (insert-Names entity "volume_level" v (base entity) refl (base-Names entity)),
            tt,
          )
        ])
    where
      plain :
          (service : String)
          → Aimed "media_player" entity (call "media_player" service (base entity) ∷ [])
      plain service = (aim "media_player" entity service _ (base-Names entity), tt)

  on_off : (domain : String) → Aimed domain entity (translate_on_off domain entity state attrs)
  unfolding translate_on_off
  on_off domain =
      All-if _ (state == "") _ _ tt (aim domain entity _ (base entity) (base-Names entity), tt)

  generic : (domain : String) → Aimed domain entity (translate_generic entity state attrs)
  unfolding translate_generic
  generic domain =
      All-if _ (state == "") _ _ tt (record { acts_in = inr refl; names = base-Names entity }, tt)

  module _ (P : String → List ServiceCall → Type 0) (domain : String) where
    choose :
        (name : String) (f g : String → String → Dict Json → List ServiceCall)
        → P name (f entity state attrs)
        → P domain (g entity state attrs)
        → P domain ((if domain == name then f else g) entity state attrs)
    choose name f g h k = elim (Bool-cases (domain == name)) [
      | inl same ↦
          rw same (subst (λ n. P n (f entity state attrs)) (sym ((eq_iff domain name).0 same)) h)
      | inr other ↦ rw other k
    ]

    -- What holds of each translator at its domain, and of the fallback at any, holds of the table.
    pub translator_cases :
        P "light" (translate_light entity state attrs)
        → P "switch" (translate_on_off "switch" entity state attrs)
        → P "fan" (translate_fan entity state attrs)
        → P "lock" (translate_lock entity state attrs)
        → P "cover" (translate_cover entity state attrs)
        → P "climate" (translate_climate entity state attrs)
        → P "media_player" (translate_media_player entity state attrs)
        → P domain (translate_generic entity state attrs)
        → P domain (translator domain entity state attrs)
    unfolding translator
    translator_cases a b c d e f g h = choose "light" _ _ a (
        choose "switch" _ _ b (
          choose "fan" _ _ c (
            choose "lock" _ _ d
              (choose "cover" _ _ e (choose "climate" _ _ f (choose "media_player" _ _ g h))))))

-- Every service call that a desired document translates to acts in the entity's own domain, or in
-- the helper domain `homeassistant`, and its data names exactly the entity of the document: no
-- attribute of the document can redirect it to another entity.
pub translate_desired-IsAimed :
    (entity : String) (state : Dict Json)
    → All (IsAimed (domain_of entity) entity) (translate_desired entity state)
unfolding translate_desired
translate_desired-IsAimed entity state =
    translator_cases entity text attrs (λ domain. Aimed domain entity) (domain_of entity)
      (light entity text attrs) (on_off entity text attrs "switch") (fan entity text attrs)
      (lock entity text attrs) (cover entity text attrs) (climate entity text attrs)
      (media_player entity text attrs) (generic entity text attrs (domain_of entity))
  where
    text : String
    text = as_string (lookup "state" state)

    attrs : Dict Json
    attrs = as_map (lookup "attributes" state)
