-- ===== src/Steps/Options.antt =====
-- The add-on options that the steps compare and write
-- (smart-home-agent/internal/onboard/steps.go: `mergedZigbeeOptions`, `zigbeeSerialSatisfied`,
-- `optionsSatisfied`, `jsonEqual`; device.go: `Configured`). A nil map is an empty one.
use smart_home_edge.Prelude.{
  pos, String, Bool, true, false, not, ◌&&◌, Option, none, some, [], ◌∷◌, Dict, lookup, insert,
  ltb_ℤ, ◌==◌, if◌then◌else◌,
}
use smart_home_edge.Json.{Json, null, bool, num, str, arr, obj, Fields, end, field, entries, as_map}
use smart_home_edge.Steps.{ZigbeeConfig, Host}

abbrev pub to_fields : Dict Json → Fields
to_fields [] = end
to_fields ((key, value) ∷ rest) = field key value (to_fields rest)

-- `v, ok := x.(map[string]any)`.
abbrev pub map_of : Option Json → Option (Dict Json)
map_of (some (obj fs)) = some (entries fs)
map_of (some null) = none
map_of (some (bool b)) = none
map_of (some (num n)) = none
map_of (some (str s)) = none
map_of (some (arr xs)) = none
map_of none = none

-- What a missing key reads as is the nil value.
abbrev pub or_null : Option Json → Json
or_null none = null
or_null (some v) = v

module _ {D : Type 0} (host : Host D) where
  unfoldable pub is_configured : ZigbeeConfig → Bool
  is_configured z = not (host.trim_space z.port == "")

  abbrev pub encodings_equal : Option String → Option String → Bool
  encodings_equal (some a) (some b) = a == b
  encodings_equal (some a) none = false
  encodings_equal none b = false

  unfoldable pub json_equal : Json → Json → Bool
  json_equal a b = encodings_equal (host.marshal a) (host.marshal b)

  abbrev pub agrees : Json → Option Json → Bool
  agrees want none = false
  agrees want (some got) = json_equal got want

  unfoldable pub options_satisfied : Dict Json → Dict Json → Bool
  unfolding json_equal
  options_satisfied current [] = true
  options_satisfied current ((key, want) ∷ rest) =
      agrees want (lookup key current) && options_satisfied current rest

  abbrev pub with_adapter : ZigbeeConfig → Dict Json → Dict Json
  with_adapter z serial =
      if not (z.adapter == "") then insert "adapter" (str z.adapter) serial else serial

  abbrev pub with_baudrate : ZigbeeConfig → Dict Json → Dict Json
  with_baudrate z serial =
      if ltb_ℤ (pos 0) z.baudrate
      then insert "baudrate" (num (host.decimal z.baudrate)) serial
      else serial

  unfoldable pub merged_serial : ZigbeeConfig → Dict Json → Dict Json
  merged_serial z serial = with_baudrate z (with_adapter z (insert "port" (str z.port) serial))

  unfoldable pub merged_zigbee_options : Dict Json → ZigbeeConfig → Dict Json
  unfolding merged_serial
  merged_zigbee_options current z =
      insert "serial" (obj (to_fields (merged_serial z (as_map (lookup "serial" current))))) current

  abbrev pub serial_satisfied : ZigbeeConfig → Option (Dict Json) → Bool
  serial_satisfied z none = false
  serial_satisfied z (some serial) =
      if not (json_equal (or_null (lookup "port" serial)) (str z.port))
      then false
      else if not (z.adapter == "")
          && not (json_equal (or_null (lookup "adapter" serial)) (str z.adapter))
      then false
      else true

  unfoldable pub zigbee_serial_satisfied : Dict Json → ZigbeeConfig → Bool
  unfolding json_equal
  zigbee_serial_satisfied current z = serial_satisfied z (map_of (lookup "serial" current))
