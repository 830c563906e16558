-- ===== src/EntityMap.antt =====
-- The device_uid ↔ entity_id index (smart-home-agent/internal/entitymap/entitymap.go). The override
-- file's decoded entries are an argument: empty for a missing or malformed file.
pub mod Bindings
use Prim.Native.Char.{code}
use smart_home_edge.Prelude.{
  ℕ, zero, suc, String, Bool, ◌||◌, Option, none, some, List, [], ◌∷◌, Dict, lookup, insert, length,
  ◌==◌, nat_eq, if◌then◌else◌,
}

pub record Entry : Type 0 where
  pub device_uid : String
  pub entity_id : String

pub record Map : Type 0 where
  pub device_to_entity : Dict String
  pub entity_to_device : Dict String

abbrev pub empty_map : Map
empty_map = record { device_to_entity = []; entity_to_device = [] }

abbrev pub defaults : List Entry
defaults =
    record { device_uid = "spike-light-1"; entity_id = "light.spike_test" }
    ∷ record { device_uid = "spike-switch-1"; entity_id = "switch.spike_test" }
    ∷ []

-- One round of the loop of `New`.
unfoldable pub bind : Map → Entry → Map
bind m e = if (e.device_uid == "") || (e.entity_id == "") then m else record {
  device_to_entity = insert e.device_uid e.entity_id m.device_to_entity;
  entity_to_device = insert e.entity_id e.device_uid m.entity_to_device;
}

unfoldable pub bind_all : Map → List Entry → Map
bind_all m [] = m
bind_all m (e ∷ es) = bind_all (bind m e) es

unfoldable pub new : List Entry → Map
unfolding bind_all bind
new es = bind_all empty_map es

-- The override's entries, when there are any.
unfoldable pub load : List Entry → Map
unfolding new
load [] = new defaults
load (e ∷ es) = new (e ∷ es)

-- A Go map read: the zero value on a missing key.
abbrev pub or_empty : Option String → String
or_empty none = ""
or_empty (some s) = s

unfoldable pub entity_for_device : Map → String → String
entity_for_device m device = or_empty (lookup device m.device_to_entity)

unfoldable pub device_for_entity : Map → String → String
device_for_entity m entity = or_empty (lookup entity m.entity_to_device)

unfoldable pub len : Map → ℕ
len m = length m.device_to_entity

abbrev pub fst_all : Dict String → List String
fst_all [] = []
fst_all ((d, e) ∷ m) = d ∷ fst_all m

-- The order of a Go map's iteration is open; the dictionary's own order stands for it.
unfoldable pub devices : Map → List String
devices m = fst_all m.device_to_entity

abbrev to_entries : Dict String → List Entry
to_entries [] = []
to_entries ((d, e) ∷ m) = record { device_uid = d; entity_id = e } ∷ to_entries m

unfoldable pub entries : Map → List Entry
entries m = to_entries m.device_to_entity

-- `strings.Cut(entityID, ".")`: the text before the first dot, or all of it.
unfoldable pub domain_of : String → String
domain_of String.[] = ""
domain_of (String.◌∷◌ c s) = if nat_eq (code c) b'.' then "" else String.◌∷◌ c (domain_of s)
