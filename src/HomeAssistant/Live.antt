-- ===== src/HomeAssistant/Live.antt =====
-- Exactly the live entities reach the inventory (smart-home-agent/internal/ha/ha.go:
-- `EntityInventory`).
use smart_home_edge.Prelude.{
  ◌≡◌, refl, sym, ap, ◌∙◌, subst, String, Bool, true, false, not, ◌||◌, Option, none, some, List,
  [], ◌∷◌, lookup, is_some, ◌==◌, if◌then◌else◌,
}
use smart_home_edge.Contract.{InventoryEntity}
use smart_home_edge.HomeAssistant.{Session, Result, ok, err}
use smart_home_edge.HomeAssistant.Socket.{ws_command}
use smart_home_edge.HomeAssistant.Registry.{
  Area, Device, Entity, set_or, text_of, is_live, described, inventory_of, area_of, area_names,
  meta_of, devices_by_id, meta_or_empty, Decoders, entity_inventory, with_areas, with_devices,
  with_entities,
}
use smart_home_edge.HomeAssistant.Mirrors.{
  last_area, last_device, IsLive, Says, Mirrors, done, skipped, listed, lookup-area_names_from,
  meta_option, lookup-devices_from,
}

set_or-ne : (o : Option String) (s : String) → (s == "") ≡ false → (set_or o s == "") ≡ false
set_or-ne none s h = h
set_or-ne (some t) s h = of_test (t == "") refl
  where
    of_test : (b : Bool) → (t == "") ≡ b → ((if not b then t else s) == "") ≡ false
    of_test true e = h
    of_test false e = e

set_or-some : (t s : String) → (t == "") ≡ false → set_or (some t) s ≡ t
set_or-some t s h = ap (λ b. if not b then t else s) h

live_lem : (e : Entity) → is_live e ≡ true → IsLive e
unfolding is_live IsLive
live_lem e h = tests (e.entity_id == "") e.disabled_by e.hidden_by h
  where
    tests :
        (b : Bool) (x y : Option String)
        → not (b || (is_some x || is_some y)) ≡ true
        → (b ≡ false) × (x ≡ none) × (y ≡ none)
    tests true x y k = absurd (cc k)
    tests false (some x) y k = absurd (cc k)
    tests false none (some y) k = absurd (cc k)
    tests false none none k = (refl, refl, refl)

not_live_lem : (e : Entity) → is_live e ≡ false → ¬ (IsLive e)
unfolding is_live IsLive
not_live_lem e h k = tests (e.entity_id == "") e.disabled_by e.hidden_by h k.0 k.1 k.2
  where
    tests :
        (b : Bool) (x y : Option String)
        → not (b || (is_some x || is_some y)) ≡ false
        → b ≡ false
        → x ≡ none
        → ¬ (y ≡ none)
    tests true x y k l m n = cc l
    tests false (some x) y k l m n = cc m
    tests false none (some y) k l m n = cc n
    tests false none none k l m n = cc k

module _ (areas : List Area) (devices : List Device) where
  abbrev entry : Entity → InventoryEntity
  entry e = described (area_names areas) (devices_by_id devices) e

  -- The id of the area that an entity has from its device.
  abbrev inherited : Option String → String
  inherited o =
      if not (text_of o == "")
      then (meta_or_empty (lookup (text_of o) (devices_by_id devices))).area_id
      else ""

  named_lem : (e : Entity) → (e.entity_id == "") ≡ false → ((entry e).name == "") ≡ false
  unfolding described
  named_lem e h =
      set_or-ne e.name (set_or e.original_name e.entity_id)
        (set_or-ne e.original_name e.entity_id h)

  user_name_lem :
      (e : Entity) (name : String)
      → e.name ≡ some name
      → (name == "") ≡ false
      → (entry e).name ≡ name
  unfolding described
  user_name_lem e name h k =
      ap (λ o. set_or o (set_or e.original_name e.entity_id)) h ∙ set_or-some name _ k

  area_name_lem :
      (id : String) → text_of (lookup id (area_names areas)) ≡ text_of (last_area id none areas)
  unfolding lookup
  area_name_lem id = ap text_of (lookup-area_names_from id [] areas)

  own_area_lem :
      (e : Entity) (a : String)
      → e.area_id ≡ some a
      → (a == "") ≡ false
      → (entry e).area ≡ text_of (last_area a none areas)
  unfolding described area_of
  own_area_lem e a h k =
      ap (λ id. text_of (lookup id (area_names areas)))
        (ap (λ o. set_or o (inherited e.device_id)) h ∙ set_or-some a (inherited e.device_id) k)
      ∙ area_name_lem a

  device_area_lem :
      (e : Entity) (id : String) (d : Device)
      → e.area_id ≡ none
      → e.device_id ≡ some id
      → (id == "") ≡ false
      → last_device id none devices ≡ some d
      → (entry e).area ≡ text_of (last_area (text_of d.area_id) none areas)
  unfolding described area_of lookup
  device_area_lem e id d unset h k found =
      let meta : lookup id (devices_by_id devices) ≡ some (meta_of d) =
        lookup-devices_from id [] none devices refl ∙ ap meta_option found in
      ap (λ i. text_of (lookup i (area_names areas)))
        (ap (λ o. set_or o (inherited e.device_id)) unset
          ∙ (ap inherited h
              ∙ (ap
                    (λ b.
                      if not b
                      then (meta_or_empty (lookup id (devices_by_id devices))).area_id
                      else "")
                    k
                  ∙ ap (λ o. (meta_or_empty o).area_id) meta)))
      ∙ area_name_lem (text_of d.area_id)

  described-Says : (e : Entity) → IsLive e → Says areas devices e (entry e)
  unfolding Says IsLive described
  described-Says e live =
      (refl, named_lem e live.0, user_name_lem e, own_area_lem e, device_area_lem e)

  mirrored :
      (entities : List Entity)
      → Mirrors areas devices entities
          (inventory_of (area_names areas) (devices_by_id devices) entities)
  unfolding inventory_of
  mirrored [] = done
  mirrored (e ∷ rest) = of_test (is_live e) refl (mirrored rest)
    where
      of_test :
          (b : Bool)
          → is_live e ≡ b
          → Mirrors areas devices rest
              (inventory_of (area_names areas) (devices_by_id devices) rest)
          → Mirrors areas devices (e ∷ rest) (
              if b
              then entry e ∷ inventory_of (area_names areas) (devices_by_id devices) rest
              else inventory_of (area_names areas) (devices_by_id devices) rest)
      of_test true h k =
          listed e (entry e) rest _ (live_lem e h) (described-Says e (live_lem e h)) k
      of_test false h k = skipped e rest _ (not_live_lem e h) k

-- What an inventory read mirrors.
unfoldable pub Reported :
    Decoders → (areas devices entities : String) → Result (List InventoryEntity) → Type 0
Reported decode areas devices entities (ok is) =
    Mirrors (decode.areas areas) (decode.devices devices) (decode.entities entities) is
Reported decode areas devices entities (err e) = ⊥

-- Where the three registries are read, the inventory has exactly one entry for each entity that has
-- an id and is neither disabled nor hidden, in the registry's order, and none for any other. Each
-- entry has the entity's id and a name that is not empty, the user's name where there is one, and
-- the name of the entity's own area, or where it has none, of the area of its device; an area or a
-- device that is listed twice counts as it is listed last.
pub entity_inventory-Reported :
    (decode : Decoders) (token : String) (s t u : Session) (areas devices entities : String)
    → ws_command token s "config/area_registry/list" ≡ ok areas
    → ws_command token t "config/device_registry/list" ≡ ok devices
    → ws_command token u "config/entity_registry/list" ≡ ok entities
    → Reported decode areas devices entities (entity_inventory decode token s t u)
unfolding entity_inventory Reported
entity_inventory-Reported decode token s t u areas devices entities a d e =
    subst (λ x. Reported decode areas devices entities x)
      (sym (
        ap
          (λ x.
            with_areas decode x (ws_command token t "config/device_registry/list")
              (ws_command token u "config/entity_registry/list"))
          a
        ∙ (ap (λ x. with_devices decode areas x (ws_command token u "config/entity_registry/list"))
              d
            ∙ ap (λ x. with_entities decode areas devices x) e)))
      (mirrored (decode.areas areas) (decode.devices devices) (decode.entities entities))
