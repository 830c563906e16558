-- ===== src/Steps/Merge.antt =====
-- The options written to Zigbee2MQTT (smart-home-agent/internal/onboard/steps.go:
-- `mergedZigbeeOptions`, `zigbeeSerialSatisfied`).
use smart_home_edge.Prelude.{
  pos, ◌≡◌, refl, ap, ◌∙◌, String, Bool, true, false, not, ◌&&◌, some, [], ◌∷◌, Dict, lookup,
  insert, lookup-insert, lookup-insert_self, ltb_ℤ, ◌==◌, if◌then◌else◌, eq_refl,
}
use smart_home_edge.Json.{Json, str, obj, entries, as_map}
use smart_home_edge.Steps.{ZigbeeConfig, Host}
use smart_home_edge.Steps.Options.{
  to_fields, map_of, or_null, json_equal, encodings_equal, merged_serial, merged_zigbee_options,
  serial_satisfied, zigbee_serial_satisfied,
}

entries-to_fields : (d : Dict Json) → entries (to_fields d) ≡ d
entries-to_fields [] = refl
entries-to_fields ((key, value) ∷ rest) = ap (λ d. (key, value) ∷ d) (entries-to_fields rest)

-- Another key is read as before, whether the new one was written or not.
lookup-if :
    (b : Bool) (key asked : String) (v : Json) (d : Dict Json)
    → (key == asked) ≡ false
    → lookup asked (if b then insert key v d else d) ≡ lookup asked d
lookup-if true key asked v d h =
    lookup-insert key asked v d ∙ ap (λ t. if t then some v else lookup asked d) h
lookup-if false key asked v d h = refl

module _ {D : Type 0} (host : Host D) where
  -- The radio settings that are not ours are read as before.
  merged_serial-other :
      (z : ZigbeeConfig) (asked : String) (d : Dict Json)
      → ("port" == asked) ≡ false
      → ("adapter" == asked) ≡ false
      → ("baudrate" == asked) ≡ false
      → lookup asked (merged_serial host z d) ≡ lookup asked d
  unfolding merged_serial
  merged_serial-other z asked d p a b =
      lookup-if (ltb_ℤ (pos 0) z.baudrate) "baudrate" asked _ _ b
      ∙ (lookup-if (not (z.adapter == "")) "adapter" asked _ _ a
          ∙ (lookup-insert "port" asked (str z.port) d
              ∙ ap (λ t. if t then some (str z.port) else lookup asked d) p))

  merged_serial-port :
      (z : ZigbeeConfig) (d : Dict Json)
      → lookup "port" (merged_serial host z d) ≡ some (str z.port)
  unfolding merged_serial
  merged_serial-port z d =
      lookup-if (ltb_ℤ (pos 0) z.baudrate) "baudrate" "port" _ _ refl
      ∙ (lookup-if (not (z.adapter == "")) "adapter" "port" _ _ refl
          ∙ lookup-insert_self "port" (str z.port) d)

  merged_serial-adapter :
      (z : ZigbeeConfig) (d : Dict Json)
      → not (z.adapter == "") ≡ true
      → lookup "adapter" (merged_serial host z d) ≡ some (str z.adapter)
  unfolding merged_serial
  merged_serial-adapter z d h =
      lookup-if (ltb_ℤ (pos 0) z.baudrate) "baudrate" "adapter" _ _ refl
      ∙ (ap
            (λ b. lookup "adapter" (
              if b
              then insert "adapter" (str z.adapter) (insert "port" (str z.port) d)
              else insert "port" (str z.port) d))
            h
          ∙ lookup-insert_self "adapter" (str z.adapter) (insert "port" (str z.port) d))

  -- Texts can be encoded.
  unfoldable pub EncodesTexts : Type 0
  EncodesTexts = (s : String) → (code : String) × (host.marshal (str s) ≡ some code)

  json_equal_self : EncodesTexts → (s : String) → json_equal host (str s) (str s) ≡ true
  unfolding json_equal EncodesTexts
  json_equal_self encodes s =
      let (code, e) = encodes s in ap (λ o. encodings_equal host o o) e ∙ eq_refl code

  satisfied_lem :
      (z : ZigbeeConfig) (d : Dict Json)
      → EncodesTexts
      → serial_satisfied host z (some (merged_serial host z d)) ≡ true
  satisfied_lem z d encodes =
      passes (json_equal host (or_null (lookup "port" (merged_serial host z d))) (str z.port))
        (not (z.adapter == ""))
        (json_equal host (or_null (lookup "adapter" (merged_serial host z d))) (str z.adapter))
        (ap (λ o. json_equal host (or_null o) (str z.port)) (merged_serial-port z d)
          ∙ json_equal_self encodes z.port)
        (λ named.
          ap (λ o. json_equal host (or_null o) (str z.adapter)) (merged_serial-adapter z d named)
          ∙ json_equal_self encodes z.adapter)
    where
      passes :
          (port named adapter : Bool)
          → port ≡ true
          → (named ≡ true → adapter ≡ true)
          → (if not port then false else if named && not adapter then false else true) ≡ true
      passes false named adapter h k = absurd (cc h)
      passes true false adapter h k = refl
      passes true true true h k = refl
      passes true true false h k = absurd (cc (k refl))

  serial_lem :
      (current : Dict Json) (z : ZigbeeConfig)
      → lookup "serial" (merged_zigbee_options host current z)
        ≡ some (obj (to_fields (merged_serial host z (as_map (lookup "serial" current)))))
  unfolding merged_zigbee_options
  serial_lem current z = lookup-insert_self "serial" _ current

  -- Where texts can be encoded, the options written to Zigbee2MQTT are found to carry the port and
  -- the adapter that are wanted, whatever the options were; every other option is as it was; and of
  -- the radio's own settings every one but the port, the adapter and the baud rate is as it was.
  pub merged_zigbee_options-satisfied :
      (current : Dict Json) (z : ZigbeeConfig)
      → EncodesTexts
      → (zigbee_serial_satisfied host (merged_zigbee_options host current z) z ≡ true)
        × ((key : String)
            → ("serial" == key) ≡ false
            → lookup key (merged_zigbee_options host current z) ≡ lookup key current)
        × ((key : String)
            → ("port" == key) ≡ false
            → ("adapter" == key) ≡ false
            → ("baudrate" == key) ≡ false
            → lookup key (as_map (lookup "serial" (merged_zigbee_options host current z)))
              ≡ lookup key (as_map (lookup "serial" current)))
  unfolding zigbee_serial_satisfied merged_zigbee_options
  merged_zigbee_options-satisfied current z encodes =
      let serial = merged_serial host z (as_map (lookup "serial" current)) in
      (
        ap (λ o. serial_satisfied host z (map_of o)) (serial_lem current z)
            ∙ (ap (λ d. serial_satisfied host z (some d)) (entries-to_fields serial)
                ∙ satisfied_lem z (as_map (lookup "serial" current)) encodes),
        (λ key h.
            lookup-insert "serial" key (obj (to_fields serial)) current
            ∙ ap (λ t. if t then some (obj (to_fields serial)) else lookup key current) h),
        (λ key p a b.
            ap (λ o. lookup key (as_map o)) (serial_lem current z)
            ∙ (ap (λ d. lookup key d) (entries-to_fields serial)
                ∙ merged_serial-other z key (as_map (lookup "serial" current)) p a b)),
      )
