-- ===== src/OutboundForm/Stream.antt =====
-- `hydrateStreamForm`, `stripUiOnlyStreamFields` and `dropEmptyStrings`: the multiplexer of an XHTTP
-- transport has a switch in the form that the wire does not have.
use x_ui_glass.Shared.{ℕ, Bool, true, false, ◌||◌, ◌+◌, if◌then◌else◌, str_eq}
use x_ui_glass.Shared.Numeral.{decimal}
use x_ui_glass.Json.{
  Value, bool, num, str, arr, obj, Items, nil, cons, Fields, end, field, prop, with_prop,
  without_prop,
}
use x_ui_glass.Platform.{is_text}
use x_ui_glass.Coerce.{Runtime}

module _ {N : Type 0} where
  -- `{ ...xs }` of an array
  unfoldable pub indexed : ℕ → Items N → Fields N
  unfolding decimal
  indexed i nil = end
  indexed i (cons v vs) = field (decimal i) v (indexed (i + 1) vs)

  -- `{ ...v }`
  unfoldable pub spread : Value N → Fields N
  unfolding indexed
  spread (obj fs) = fs
  spread (arr vs) = indexed 0 vs
  spread v = end

  -- `{ ...base, ...fs }`
  unfoldable pub overlay : Fields N → Fields N → Fields N
  unfolding with_prop
  overlay base end = base
  overlay base (field k v fs) = overlay (with_prop k v base) fs

  -- An assignment to `__proto__` makes no property.
  unfoldable pub drop_empty_strings : Fields N → Fields N
  unfolding is_text
  drop_empty_strings end = end
  drop_empty_strings (field k v fs) =
      let rest = drop_empty_strings fs in
      if is_text v "" || str_eq k "__proto__" then rest else field k v rest

  abbrev pub is_true : Value N → Bool
  is_true (bool b) = b
  is_true v = false

  unfoldable pub strip_xhttp : Fields N → Fields N
  unfolding without_prop drop_empty_strings prop
  strip_xhttp xhttp =
      let cleaned = without_prop "enableXmux" xhttp in
      drop_empty_strings
        (if is_true (prop xhttp "enableXmux") then cleaned else without_prop "xmux" cleaned)

  -- The settings of the transport, if they are an object or an array.
  abbrev pub strip_settings : Value N → Fields N → Fields N
  unfolding with_prop spread strip_xhttp
  strip_settings (obj xhttp) stream = with_prop "xhttpSettings" (obj (strip_xhttp xhttp)) stream
  strip_settings (arr vs) stream =
      with_prop "xhttpSettings" (obj (strip_xhttp (spread (arr vs)))) stream
  strip_settings v stream = stream

  unfoldable pub strip_ui_only_stream_fields : Fields N → Fields N
  unfolding prop with_prop spread strip_xhttp
  strip_ui_only_stream_fields stream = strip_settings (prop stream "xhttpSettings") stream

module _ {N : Type 0} (rt : Runtime N) where
  open rt use {web}

  -- `XMUX_DEFAULTS`
  abbrev pub xmux_defaults : Fields N
  xmux_defaults = field "maxConcurrency" (str "16-32") (
      field "maxConnections" (num (web.number 0)) (
        field "cMaxReuseTimes" (num (web.number 0)) (
          field "hMaxRequestTimes" (str "600-900") (
            field "hMaxReusableSecs" (str "1800-3000")
              (field "hKeepAlivePeriod" (num (web.number 0)) end)))))

  -- The switch is on where there is a multiplexer.
  abbrev pub hydrate_xmux : Value N → Fields N → Fields N
  unfolding with_prop overlay
  hydrate_xmux (obj xmux) xhttp =
      with_prop "xmux" (obj (overlay xmux_defaults xmux)) (with_prop "enableXmux" (bool true) xhttp)
  hydrate_xmux v xhttp = xhttp

  abbrev pub hydrate_settings : Value N → Fields N → Fields N
  unfolding with_prop overlay prop
  hydrate_settings (obj xhttp) stream =
      with_prop "xhttpSettings" (obj (hydrate_xmux (prop xhttp "xmux") xhttp)) stream
  hydrate_settings v stream = stream

  unfoldable pub hydrate_stream_form : Fields N → Fields N
  unfolding prop with_prop overlay
  hydrate_stream_form stream = hydrate_settings (prop stream "xhttpSettings") stream
