-- ===== src/OutboundForm/StreamFields.antt =====
-- What the stream settings of an outbound keep on their way to the wire.
use x_ui_glass.Shared.{
  String, Bool, true, false, not, ◌||◌, ◌&&◌, ◌≡◌, refl, ◌∙◌, Option, none, some, if◌then◌else◌,
  str_eq, eq_iff, arith, Bool-cases, inl, inr, maybe,
}
use x_ui_glass.Shared.Property.{lookup, Distinct}
use x_ui_glass.Json.{
  Value, undefined, bool, obj, Fields, end, field, prop, with_prop, entries, or_undefined,
}
use x_ui_glass.Json.{without_prop}
use x_ui_glass.Json.Laws.{
  lookup-without_prop, without_prop-Distinct, prop-with_prop, with_prop-Distinct,
}
use x_ui_glass.Platform.{is_text}
use x_ui_glass.Coerce.{Runtime}
use x_ui_glass.OutboundForm.{
  drop_empty_strings, strip_xhttp, strip_ui_only_stream_fields, is_true, hydrate_stream_form,
  xmux_defaults, overlay,
}

module _ {N : Type 0} where
  -- A value that is no empty text, under a name that is no prototype.
  abbrev kept_value : String → Value N → Option (Value N)
  unfolding is_text
  kept_value k v = if is_text v "" || str_eq k "__proto__" then none else some v

  lookup-drop_empty_strings :
      (k : String) (fs : Fields N)
      → Distinct (entries fs)
      → lookup k (entries (drop_empty_strings fs))
        ≡ maybe (lookup k (entries fs)) none (kept_value k)
  unfolding lookup entries drop_empty_strings
  lookup-drop_empty_strings k end d = refl
  lookup-drop_empty_strings k (field j v fs) d =
      ground (arith, eq_iff j k, lookup-drop_empty_strings k fs d.1)

  settled :
      (k : String) (on : Bool) (o : Option (Value N))
      → or_undefined (
          maybe
            (if not on && str_eq "xmux" k then none else if str_eq "enableXmux" k then none else o)
            none
            (kept_value k))
        ≡ (if str_eq k "enableXmux"
              || (str_eq k "xmux" && not on)
              || str_eq k "__proto__"
              || is_text (or_undefined o) ""
            then undefined
            else or_undefined o)
  unfolding is_text
  settled k true none = ground (arith, eq_iff k "enableXmux", eq_iff "enableXmux" k)
  settled k true (some v) = ground (arith, eq_iff k "enableXmux", eq_iff "enableXmux" k)
  settled k false none =
      ground (arith, eq_iff k "enableXmux", eq_iff "enableXmux" k, eq_iff k "xmux", eq_iff "xmux" k)
  settled k false (some v) =
      ground (arith, eq_iff k "enableXmux", eq_iff "enableXmux" k, eq_iff k "xmux", eq_iff "xmux" k)

  -- The settings of an XHTTP transport without the switch of the form, and with the multiplexer only
  -- where that is on: every other property is as it was, if it is no empty text.
  pub prop-strip_xhttp :
      (k : String) (xhttp : Fields N)
      → Distinct (entries xhttp)
      → prop (strip_xhttp xhttp) k ≡ (
          if str_eq k "enableXmux"
            || (str_eq k "xmux" && not (is_true (prop xhttp "enableXmux")))
            || str_eq k "__proto__"
            || is_text (prop xhttp k) ""
          then undefined
          else prop xhttp k)
  unfolding strip_xhttp prop
  prop-strip_xhttp k xhttp d =
      let cleaned = without_prop "enableXmux" xhttp in
      let d' = without_prop-Distinct "enableXmux" xhttp d in
      elim (Bool-cases (is_true (prop xhttp "enableXmux"))) [
        | inl on ↦
            rw
              (on, lookup-drop_empty_strings k cleaned d', lookup-without_prop "enableXmux" k xhttp)
              (settled k true (lookup k (entries xhttp)))
        | inr off ↦
            rw
              (
                off,
                lookup-drop_empty_strings k (without_prop "xmux" cleaned)
                    (without_prop-Distinct "xmux" cleaned d'),
                lookup-without_prop "xmux" k cleaned,
                lookup-without_prop "enableXmux" k xhttp,
              )
              (settled k false (lookup k (entries xhttp)))
      ]

  -- The form's settings of a transport with a multiplexer.
  abbrev switched : Fields N → Fields N → Fields N
  switched xmux xhttp = with_prop "xmux" (obj xmux) (with_prop "enableXmux" (bool true) xhttp)

  switched-Distinct :
      (xmux xhttp : Fields N) → Distinct (entries xhttp) → Distinct (entries (switched xmux xhttp))
  switched-Distinct xmux xhttp d =
      with_prop-Distinct "xmux" (obj xmux) (with_prop "enableXmux" (bool true) xhttp)
        (with_prop-Distinct "enableXmux" (bool true) xhttp d)

  -- The switch is on, and so the multiplexer stays and the switch goes.
  strip_switched :
      (xmux xhttp : Fields N)
      → Distinct (entries xhttp)
      → (prop (strip_xhttp (switched xmux xhttp)) "enableXmux" ≡ undefined)
        × (prop (strip_xhttp (switched xmux xhttp)) "xmux" ≡ obj xmux)
  unfolding is_text
  strip_switched xmux xhttp d =
      let fs = switched xmux xhttp in
      let inner = with_prop "enableXmux" (bool true) xhttp in
      let on : prop fs "enableXmux" ≡ bool true =
        prop-with_prop "xmux" "enableXmux" (obj xmux) inner
        ∙ prop-with_prop "enableXmux" "enableXmux" (bool true) xhttp in
      let there : prop fs "xmux" ≡ obj xmux = prop-with_prop "xmux" "xmux" (obj xmux) inner in
      (
        prop-strip_xhttp "enableXmux" fs (switched-Distinct xmux xhttp d),
        prop-strip_xhttp "xmux" fs (switched-Distinct xmux xhttp d) ∙ (rw (on, there) refl),
      )

  strip-settings :
      (stream xhttp : Fields N)
      → prop stream "xhttpSettings" ≡ obj xhttp
      → prop (strip_ui_only_stream_fields stream) "xhttpSettings" ≡ obj (strip_xhttp xhttp)
  unfolding strip_ui_only_stream_fields
  strip-settings stream xhttp h =
      rw h (prop-with_prop "xhttpSettings" "xhttpSettings" (obj (strip_xhttp xhttp)) stream)

  module _ (rt : Runtime N) where
    hydrate-settings :
        (stream xhttp xmux : Fields N)
        → prop stream "xhttpSettings" ≡ obj xhttp
        → prop xhttp "xmux" ≡ obj xmux
        → prop (hydrate_stream_form rt stream) "xhttpSettings"
          ≡ obj (switched (overlay (xmux_defaults rt) xmux) xhttp)
    unfolding hydrate_stream_form
    hydrate-settings stream xhttp xmux h e =
        rw (h, e)
          (prop-with_prop "xhttpSettings" "xhttpSettings"
            (obj (switched (overlay (xmux_defaults rt) xmux) xhttp)) stream)

    -- A multiplexer that is read is written again, with the defaults that it lacked, and without
    -- the switch of the form.
    pub prop-strip-hydrate :
        (stream xhttp xmux : Fields N)
        → Distinct (entries xhttp)
        → prop stream "xhttpSettings" ≡ obj xhttp
        → prop xhttp "xmux" ≡ obj xmux
        → (settings : Fields N) × (prop
              (strip_ui_only_stream_fields (hydrate_stream_form rt stream))
              "xhttpSettings"
            ≡ obj settings)
          × (prop settings "enableXmux" ≡ undefined)
          × (prop settings "xmux" ≡ obj (overlay (xmux_defaults rt) xmux))
    prop-strip-hydrate stream xhttp xmux d h e =
        let full = overlay (xmux_defaults rt) xmux in
        (
          strip_xhttp (switched full xhttp),
          strip-settings (hydrate_stream_form rt stream) (switched full xhttp)
              (hydrate-settings stream xhttp xmux h e),
          (strip_switched full xhttp d).0,
          (strip_switched full xhttp d).1,
        )
