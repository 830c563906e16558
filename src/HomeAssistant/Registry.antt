-- ===== src/HomeAssistant/Registry.antt =====
-- The inventory of entities, from the registries (smart-home-agent/internal/ha/ha.go:
-- `EntityInventory`).
use smart_home_edge.Prelude.{
  String, Bool, not, ◌||◌, Option, none, some, List, [], ◌∷◌, Dict, lookup, insert, is_some, ◌==◌,
  if◌then◌else◌,
}
use smart_home_edge.Contract.{InventoryEntity}
use smart_home_edge.EntityMap.{domain_of}
use smart_home_edge.HomeAssistant.{Session, Result, ok, err}
use smart_home_edge.HomeAssistant.Socket.{ws_command}

pub record Area : Type 0 where
  pub area_id : String
  pub name : String

-- `none` for a nil pointer.
pub record Device : Type 0 where
  pub id : String
  pub name : Option String
  pub name_by_user : Option String
  pub area_id : Option String

pub record Entity : Type 0 where
  pub entity_id : String
  pub name : Option String
  pub original_name : Option String
  pub area_id : Option String
  pub device_id : Option String
  pub device_class : Option String
  pub original_device_class : Option String
  pub unit_of_measurement : Option String
  pub disabled_by : Option String
  pub hidden_by : Option String

pub record DeviceMeta : Type 0 where
  pub name : String
  pub area_id : String

-- The decoders, whose errors are ignored.
pub record Decoders : Type 0 where
  pub areas : String → List Area
  pub devices : String → List Device
  pub entities : String → List Entity

-- A text that is set and not empty, or else the fallback.
abbrev pub set_or : Option String → String → String
set_or none fallback = fallback
set_or (some s) fallback = if not (s == "") then s else fallback

abbrev pub text_of : Option String → String
text_of none = ""
text_of (some s) = s

abbrev pub area_names_from : Dict String → List Area → Dict String
area_names_from names [] = names
area_names_from names (a ∷ rest) = area_names_from (insert a.area_id a.name names) rest

abbrev pub area_names : List Area → Dict String
area_names areas = area_names_from [] areas

abbrev pub meta_of : Device → DeviceMeta
meta_of d = record { name = set_or d.name_by_user (text_of d.name); area_id = text_of d.area_id }

abbrev pub devices_from : Dict DeviceMeta → List Device → Dict DeviceMeta
devices_from metas [] = metas
devices_from metas (d ∷ rest) = devices_from (insert d.id (meta_of d) metas) rest

abbrev pub devices_by_id : List Device → Dict DeviceMeta
devices_by_id devices = devices_from [] devices

abbrev pub no_meta : DeviceMeta
no_meta = record { name = ""; area_id = "" }

abbrev pub meta_or_empty : Option DeviceMeta → DeviceMeta
meta_or_empty none = no_meta
meta_or_empty (some m) = m

-- Disabled and hidden entities, and those without an id, are skipped.
unfoldable pub is_live : Entity → Bool
is_live e = not ((e.entity_id == "") || (is_some e.disabled_by || is_some e.hidden_by))

abbrev pub device_name : Dict DeviceMeta → Option String → String
device_name metas none = ""
device_name metas (some id) = (meta_or_empty (lookup id metas)).name

-- The entity's own area, or else that of its device.
unfoldable pub area_of : Dict DeviceMeta → Entity → String
area_of metas e = set_or e.area_id (
    if not (text_of e.device_id == "")
    then (meta_or_empty (lookup (text_of e.device_id) metas)).area_id
    else "")

unfoldable pub described : Dict String → Dict DeviceMeta → Entity → InventoryEntity
unfolding area_of
described names metas e = record {
  entity_id = e.entity_id;
  domain = domain_of e.entity_id;
  name = set_or e.name (set_or e.original_name e.entity_id);
  area = text_of (lookup (area_of metas e) names);
  ha_device_id = text_of e.device_id;
  ha_device_name = device_name metas e.device_id;
  device_class = set_or e.device_class (set_or e.original_device_class "");
  unit_of_measurement = text_of e.unit_of_measurement;
}

unfoldable pub inventory_of : Dict String → Dict DeviceMeta → List Entity → List InventoryEntity
unfolding is_live described
inventory_of names metas [] = []
inventory_of names metas (e ∷ rest) =
    let later = inventory_of names metas rest in
    if is_live e then described names metas e ∷ later else later

abbrev pub decoded : Decoders → String → String → String → List InventoryEntity
decoded decode areas devices entities =
    inventory_of (area_names (decode.areas areas)) (devices_by_id (decode.devices devices))
      (decode.entities entities)

abbrev pub with_entities :
    Decoders → String → String → Result String → Result (List InventoryEntity)
with_entities decode areas devices (err e) = err e
with_entities decode areas devices (ok entities) = ok (decoded decode areas devices entities)

abbrev pub with_devices :
    Decoders → String → Result String → Result String → Result (List InventoryEntity)
with_devices decode areas (err e) entities = err e
with_devices decode areas (ok devices) entities = with_entities decode areas devices entities

abbrev pub with_areas :
    Decoders → Result String → Result String → Result String → Result (List InventoryEntity)
with_areas decode (err e) devices entities = err e
with_areas decode (ok areas) devices entities = with_devices decode areas devices entities

-- Each registry is read in a session of its own, the later ones only after the earlier ones.
unfoldable pub entity_inventory :
    Decoders → String → (areas devices entities : Session) → Result (List InventoryEntity)
unfolding ws_command inventory_of
entity_inventory decode token areas devices entities =
    with_areas decode (ws_command token areas "config/area_registry/list")
      (ws_command token devices "config/device_registry/list")
      (ws_command token entities "config/entity_registry/list")
