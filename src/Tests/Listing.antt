-- ===== src/Tests/Listing.antt =====
-- The inventory of a small registry, and a backup on its way.
use smart_home_edge.Prelude.{
  lookup, insert, ◌≡◌, refl, pos, String, true, false, Option, none, some, List, [], ◌∷◌, ◌==◌,
  if◌then◌else◌,
}
use smart_home_edge.HomeAssistant.{Frame, Session, Result, ok, err}
use smart_home_edge.Contract.{InventoryEntity}
use smart_home_edge.HomeAssistant.Socket.{ws_command}
use smart_home_edge.HomeAssistant.Registry.{Entity, Decoders, entity_inventory}
use smart_home_edge.HomeAssistant.Live.{Reported, entity_inventory-Reported}
use smart_home_edge.Backup.{Formats, Runner, begin_backup, deliver_backup, finish_backup, answered}
use smart_home_edge.Tests.Provisioning.{stored, rotating}

abbrev frame : String → String → Frame
frame kind result = record {
  id = pos 1;
  kind = kind;
  message = "";
  success = true;
  result = result;
  error_message = "";
  event_type = "";
  new_state = none;
}

-- A session that answers the command after an event.
abbrev answering : String → Session
answering result = record {
  dialled = true;
  frames =
      frame "auth_required" "" ∷ frame "auth_ok" "" ∷ frame "event" "" ∷ frame "result" result ∷ [];
  writes = λ n. true;
}

abbrev entity : String → Option String → Option String → Entity
entity id name hidden_by = record {
  entity_id = id;
  name = name;
  original_name = none;
  area_id = none;
  device_id = some "d1";
  device_class = none;
  original_device_class = none;
  unit_of_measurement = none;
  disabled_by = none;
  hidden_by = hidden_by;
}

abbrev decoders : Decoders
decoders = record {
  areas = λ raw. record { area_id = "a1"; name = "Bedroom" } ∷ [];
  devices = λ raw.
      record { id = "d1"; name = some "Lamp"; name_by_user = none; area_id = some "a1" } ∷ [];
  entities =
      λ raw. entity "light.bed" none none ∷ entity "light.old" (some "Old") (some "user") ∷ [];
}

-- The hidden light is not listed, and the other is in the area of its device.
abbrev listed_area : Result (List InventoryEntity) → Option String
listed_area (ok (i ∷ [])) = some i.area
listed_area (ok []) = none
listed_area (ok (i ∷ j ∷ rest)) = none
listed_area (err e) = none

bedroom :
    listed_area (entity_inventory decoders "t" (answering "a") (answering "d") (answering "e"))
    ≡ some "Bedroom"
unfolding entity_inventory lookup insert
bedroom = refl

entity_inventory-Reported_example :
    Reported decoders "a" "d" "e"
      (entity_inventory decoders "t" (answering "a") (answering "d") (answering "e"))
unfolding ws_command
entity_inventory-Reported_example =
    entity_inventory-Reported decoders "t" (answering "a") (answering "d") (answering "e") "a" "d"
      "e" refl refl refl

abbrev formats : Formats
formats = record {
  decode_response = λ raw. some (record { status = "ok"; error = ""; backup = raw });
  base64 = λ s. some s;
  unzip = λ s. some (
      record { name = "data/state.json"; opened = none }
      ∷ record { name = "data/coordinator_backup.json"; opened = some (some s) }
      ∷ []);
  path_base = λ s. if s == "data/coordinator_backup.json" then "coordinator_backup.json" else s;
}

abbrev idle : Runner
idle = record {
  claimed = true;
  local_mqtt = true;
  inflight = false;
  response = some "stale";
  shipped = [];
}

-- A stale response is dropped at the start, and what is shipped is the response to the request.
shipped_fresh :
    finish_backup formats rotating
      (some stored)
      answered
      (deliver_backup "fresh" (begin_backup true idle))
    ≡ record idle { response = none; shipped = "fresh" ∷ [] }
unfolding finish_backup deliver_backup begin_backup
shipped_fresh = refl
