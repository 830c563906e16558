-- ===== src/HomeAssistant/Mirrors.antt =====
-- What an inventory says of the registries, and how the tables read them
-- (smart-home-agent/internal/ha/ha.go: `EntityInventory`).
use smart_home_edge.Prelude.{
  ◌≡◌, refl, ap, ◌∙◌, String, Bool, true, false, Option, none, some, List, [], ◌∷◌, Dict, lookup,
  insert, lookup-insert, ◌==◌, if◌then◌else◌,
}
use smart_home_edge.Contract.{InventoryEntity}
use smart_home_edge.HomeAssistant.Registry.{
  Area, Device, Entity, DeviceMeta, text_of, area_names_from, meta_of, devices_from,
}

-- The last area, and the last device, of a list with the id.
unfoldable pub last_area : String → Option String → List Area → Option String
last_area id found [] = found
last_area id found (a ∷ rest) = last_area id (if a.area_id == id then some a.name else found) rest

unfoldable pub last_device : String → Option Device → List Device → Option Device
last_device id found [] = found
last_device id found (d ∷ rest) = last_device id (if d.id == id then some d else found) rest

unfoldable pub IsLive : Entity → Type 0
IsLive e = ((e.entity_id == "") ≡ false) × (e.disabled_by ≡ none) × (e.hidden_by ≡ none)

-- An entry is about an entity: it has its id and a name, the user's name if there is one, and the
-- name of the entity's own area, or else of the area of its device.
unfoldable pub Says : List Area → List Device → Entity → InventoryEntity → Type 0
Says areas devices e i =
    (i.entity_id ≡ e.entity_id)
    × ((i.name == "") ≡ false)
    × ((name : String) → e.name ≡ some name → (name == "") ≡ false → i.name ≡ name)
    × ((a : String)
        → e.area_id ≡ some a
        → (a == "") ≡ false
        → i.area ≡ text_of (last_area a none areas))
    × ((id : String) (d : Device)
        → e.area_id ≡ none
        → e.device_id ≡ some id
        → (id == "") ≡ false
        → last_device id none devices ≡ some d
        → i.area ≡ text_of (last_area (text_of d.area_id) none areas))

pub data Mirrors (areas : List Area) (devices : List Device)
    : List Entity → List InventoryEntity → Type 0 where
  done : Mirrors areas devices [] []
  skipped :
      (e : Entity) (es : List Entity) (is : List InventoryEntity)
      → ¬ (IsLive e)
      → Mirrors areas devices es is
      → Mirrors areas devices (e ∷ es) is
  listed :
      (e : Entity) (i : InventoryEntity) (es : List Entity) (is : List InventoryEntity)
      → IsLive e
      → Says areas devices e i
      → Mirrors areas devices es is
      → Mirrors areas devices (e ∷ es) (i ∷ is)

-- Reading the tables is looking for the last entry with the id.
pub lookup-area_names_from :
    (id : String) (names : Dict String) (areas : List Area)
    → lookup id (area_names_from names areas) ≡ last_area id (lookup id names) areas
unfolding last_area
lookup-area_names_from id names [] = refl
lookup-area_names_from id names (a ∷ rest) =
    lookup-area_names_from id (insert a.area_id a.name names) rest
    ∙ ap (λ o. last_area id o rest) (lookup-insert a.area_id id a.name names)

abbrev pub meta_option : Option Device → Option DeviceMeta
meta_option none = none
meta_option (some d) = some (meta_of d)

meta_option-if :
    (b : Bool) (d : Device) (o : Option Device)
    → (if b then some (meta_of d) else meta_option o) ≡ meta_option (if b then some d else o)
meta_option-if true d o = refl
meta_option-if false d o = refl

pub lookup-devices_from :
    (id : String) (metas : Dict DeviceMeta) (found : Option Device) (devices : List Device)
    → lookup id metas ≡ meta_option found
    → lookup id (devices_from metas devices) ≡ meta_option (last_device id found devices)
unfolding last_device
lookup-devices_from id metas found [] h = h
lookup-devices_from id metas found (d ∷ rest) h =
    lookup-devices_from id (insert d.id (meta_of d) metas) (if d.id == id then some d else found)
      rest
      (lookup-insert d.id id (meta_of d) metas
        ∙ (ap (λ o. if d.id == id then some (meta_of d) else o) h
            ∙ meta_option-if (d.id == id) d found))
