-- ===== src/Tests/Parts.antt =====
-- The components outside the agent: the buffer, the set of command ids, the version store, the
-- entity map, the translation, the topics and the pairing sessions.
use smart_home_edge.Prelude.{
  ◌≡◌, ◌≢◌, refl, String, true, false, ◌&&◌, none, some, List, [], ◌∷◌, ◌+◌, arith, pos, lookup,
  insert, contains, is_some, All, Dict, ◌==◌, if◌then◌else◌,
}
use smart_home_edge.Json.{Json, str, num}
use smart_home_edge.Buffer.{Pending, UplinkBuffer, new_uplink_buffer, drain, push}
use smart_home_edge.Buffer.Window.{IsBounded, last, push_all, push_all_window, drain-push_all}
use smart_home_edge.Dedupe.{CmdDedupe, new_cmd_dedupe, first_see}
use smart_home_edge.Dedupe.Window.{Seen, first_see-Seen, new_cmd_dedupe-IsWell}
use smart_home_edge.Dedupe.Redelivery.{see_all, redelivery_refused}
use smart_home_edge.Versions.{VersionStore, new_version_store, get, set}
use smart_home_edge.Versions.Monotone.{
  AtMost, raised, IsBehind, get-set, set-AtMost, set-IsBehind, new_version_store-IsBehind,
}
use smart_home_edge.EntityMap.{
  Entry, new, bind, bind_all, entity_for_device, device_for_entity, or_empty, domain_of,
}
use smart_home_edge.EntityMap.Bindings.{
  last_for_device, last_for_entity, new_last, entity_round_trip,
}
use smart_home_edge.Translate.{translate_light, translate_desired, call, light_keys}
use smart_home_edge.Translate.Target.{IsAimed, translate_desired-IsAimed}
use smart_home_edge.Translate.Calls.{light_on}
use smart_home_edge.Translate.Switching.{Obeys, translate_desired-Obeys}
use smart_home_edge.Contract.Topics.Separation.{
  Uplink, Downlink, uplink_topic, downlink_topic, uplink-ne-downlink,
}
use smart_home_edge.Pairing.{new_manager, Manager}
use smart_home_edge.Pairing.Sessions.{
  Call, starting, stopping, timing_out, starts, ends, run, open_count, sessions_end_once,
}

abbrev message : String → Pending
message raw = record { topic = "homes/h1/ack"; payload = raw; qos = 1; retain = false }

abbrev two_held : UplinkBuffer
two_held = record { items = message "a" ∷ message "b" ∷ []; limit = 2 }

two_held-IsBounded : IsBounded two_held
two_held-IsBounded = record { positive = omega arith; within = omega arith }

-- The oldest message gives way.
third_push :
    push two_held (message "c") ≡ some (record two_held { items = message "b" ∷ message "c" ∷ [] })
unfolding push
third_push = refl

push_all_window_example :
    push_all two_held (message "c" ∷ [])
    ≡ some (record two_held { items = last 2 (message "a" ∷ message "b" ∷ message "c" ∷ []) })
push_all_window_example = push_all_window two_held (message "c" ∷ []) two_held-IsBounded

drain-push_all_example :
    (b : UplinkBuffer) × (push_all (new_uplink_buffer 1) (message "a" ∷ message "b" ∷ []) ≡ some b)
    × (drain b ≡ (last 1 (message "a" ∷ message "b" ∷ []), new_uplink_buffer 1))
drain-push_all_example = drain-push_all 1 (message "a" ∷ message "b" ∷ []) (omega arith)

first_see-Seen_example : Seen (new_cmd_dedupe 2) "c1"
first_see-Seen_example =
    first_see-Seen (new_cmd_dedupe 2) "c1" (new_cmd_dedupe-IsWell 2 (omega arith))

abbrev after_one : CmdDedupe
after_one = record { seen = ("c1", tt) ∷ []; order = "c1" ∷ []; limit = 2 }

abbrev after_two : CmdDedupe
after_two = record { seen = ("c1", tt) ∷ ("c2", tt) ∷ []; order = "c1" ∷ "c2" ∷ []; limit = 2 }

redelivery_refused_example : first_see after_two "c1" ≡ some (after_two, false)
unfolding new_cmd_dedupe first_see see_all lookup insert
redelivery_refused_example =
    redelivery_refused (new_cmd_dedupe 2) after_one after_two "c1" ("c2" ∷ []) 1
      (new_cmd_dedupe-IsWell 2 (omega arith)) refl refl (omega arith)

abbrev stored : VersionStore
stored = record { applied = ("lamp", pos 3) ∷ []; disk = some (("lamp", pos 3) ∷ []) }

get-set_example :
    get (set true stored "lamp" (pos 5)) "lamp"
    ≡ (if "lamp" == "lamp" then some (raised (get stored "lamp") (pos 5)) else get stored "lamp")
get-set_example = get-set true stored "lamp" "lamp" (pos 5)

set-AtMost_example : AtMost (get stored "lamp") (get (set false stored "lamp" (pos 2)) "lamp")
set-AtMost_example = set-AtMost false stored "lamp" "lamp" (pos 2)

set-IsBehind_example :
    IsBehind (set false (new_version_store (some (("lamp", pos 3) ∷ []))) "lamp" (pos 4))
set-IsBehind_example =
    set-IsBehind false (new_version_store (some (("lamp", pos 3) ∷ []))) "lamp" (pos 4)
      (new_version_store-IsBehind (some (("lamp", pos 3) ∷ [])))

abbrev entry : String → String → Entry
entry device entity = record { device_uid = device; entity_id = entity }

abbrev two_devices : List Entry
two_devices = entry "d1" "light.desk" ∷ entry "d2" "lock.door" ∷ []

new_last_example :
    (entity_for_device (new two_devices) "d2" ≡ or_empty (last_for_device "d2" none two_devices))
    × (device_for_entity (new two_devices) "d2" ≡ or_empty (last_for_entity "d2" none two_devices))
new_last_example = new_last two_devices "d2"

entity_round_trip_example :
    device_for_entity (new two_devices) (entity_for_device (new two_devices) "d1") ≡ "d1"
unfolding new bind_all bind entity_for_device lookup insert
entity_round_trip_example = entity_round_trip two_devices "d1" (ground arith) refl

abbrev brightness : Dict Json
brightness = ("brightness", num "120") ∷ ("entity_id", str "lock.door") ∷ []

abbrev desk_on : Dict Json
desk_on = ("state", str "on") ∷ []

translate_desired-IsAimed_example :
    All (IsAimed (domain_of "light.desk") "light.desk") (translate_desired "light.desk" desk_on)
translate_desired-IsAimed_example = translate_desired-IsAimed "light.desk" desk_on

translate_desired-Obeys_example : Obeys "light.desk" "on" (translate_desired "light.desk" desk_on)
unfolding domain_of lookup
translate_desired-Obeys_example = translate_desired-Obeys "light.desk" desk_on refl refl refl

light_on_example :
    (d : Dict Json) × (translate_light "light.desk" "on" brightness ≡ call "light" "turn_on" d ∷ [])
    × (lookup "brightness" d ≡ (
        if contains "brightness" light_keys && is_some (lookup "brightness" brightness)
        then lookup "brightness" brightness
        else if "entity_id" == "brightness"
        then some (str "light.desk")
        else none))
light_on_example = light_on "light.desk" "on" "brightness" brightness refl refl

uplink-ne-downlink_example : uplink_topic "u1" Uplink.ack ≢ downlink_topic "u1" Downlink.command
uplink-ne-downlink_example = uplink-ne-downlink "u1" Uplink.ack Downlink.command

abbrev a_day : List Call
a_day =
    starting true (pos 0) "s1" (pos 60)
    ∷ starting true (pos 5) "s2" (pos 60)
    ∷ stopping "s2" "user"
    ∷ timing_out "s1"
    ∷ []

sessions_end_once_example :
    starts "s1" (run new_manager a_day).1
    ≡ ends "s1" (run new_manager a_day).1 + open_count "s1" (run new_manager a_day).0
sessions_end_once_example = sessions_end_once "s1" a_day refl

abbrev pairing_s1 : Manager
pairing_s1 = record { active_id = "s1"; timer = some "s1" }
