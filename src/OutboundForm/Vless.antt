-- ===== src/OutboundForm/Vless.antt =====
-- `vlessFromWire` and `vlessToWire`, with the sniffing of a reverse proxy.
use x_ui_glass.Shared.{
  String, Bool, false, ◌&&◌, List, [], ◌∷◌, if◌then◌else◌, is_empty, str_eq, length, ◌==◌, all,
}
use x_ui_glass.Json.{
  Value, bool, num, str, arr, obj, Fields, end, field, prop, with_prop, texts, of_items,
}
use x_ui_glass.Coerce.{
  Runtime, as_object, as_array, as_string_or, as_string, as_strings, as_bool, as_number, as_port,
  is_positive_integer, texts_or_undefined,
}
use x_ui_glass.OutboundForm.Settings.{ReverseSniffing, VlessForm}
use x_ui_glass.OutboundForm.Basic.{first_object}

abbrev pub default_overrides : List String
default_overrides = "http" ∷ "tls" ∷ "quic" ∷ "fakedns" ∷ []

-- `REVERSE_SNIFFING_DEFAULT`
abbrev pub reverse_sniffing_default : ReverseSniffing
reverse_sniffing_default = record {
  enabled = false;
  dest_override = default_overrides;
  metadata_only = false;
  route_only = false;
  ips_excluded = [];
  domains_excluded = [];
}

abbrev pub or_overrides : List String → List String
or_overrides [] = default_overrides
or_overrides (s ∷ ss) = s ∷ ss

-- `s || 'none'`
abbrev pub or_none : String → String
or_none s = if is_empty s then "none" else s

module _ {N : Type 0} where
  unfoldable pub reverse_sniffing_from_wire : Value N → ReverseSniffing
  unfolding as_object as_array as_string_or as_bool prop
  reverse_sniffing_from_wire raw =
      let r = as_object raw in
      record {
        enabled = as_bool (prop r "enabled");
        dest_override = or_overrides (as_strings (prop r "destOverride"));
        metadata_only = as_bool (prop r "metadataOnly");
        route_only = as_bool (prop r "routeOnly");
        ips_excluded = as_strings (prop r "ipsExcluded");
        domains_excluded = as_strings (prop r "domainsExcluded");
      }

  unfoldable pub reverse_sniffing_to_wire : ReverseSniffing → Fields N
  unfolding texts
  reverse_sniffing_to_wire s = field "enabled" (bool s.enabled) (
      field "destOverride" (arr (texts s.dest_override)) (
        field "metadataOnly" (bool s.metadata_only) (
          field "routeOnly" (bool s.route_only) (
            field "ipsExcluded" (texts_or_undefined s.ips_excluded)
              (field "domainsExcluded" (texts_or_undefined s.domains_excluded) end)))))

module _ {N : Type 0} (rt : Runtime N) where
  open rt use {web}

  abbrev pub default_testseed : List (Value N)
  default_testseed =
      num (web.number 900) ∷ num (web.number 500) ∷ num (web.number 900) ∷ num (web.number 256) ∷ []

  -- Four positive integers.
  unfoldable pub is_testseed : List (Value N) → Bool
  unfolding all
  is_testseed seed = length seed == 4 && all (is_positive_integer rt) seed

  -- The part of `vlessFromWire` that reads the server and the user off `target` and `user`.
  unfoldable pub vless_from : Fields N → Fields N → Fields N → VlessForm N
  unfolding as_object as_array as_string_or as_number as_port prop is_testseed
      reverse_sniffing_from_wire
  vless_from raw target user =
      let reverse = as_object (prop raw "reverse") in
      let tag = as_string (prop reverse "tag") in
      let saved = as_array (prop raw "testseed") in
      record {
        address = as_string (prop target "address");
        port = as_port rt (prop target "port") (web.number 443);
        id = as_string (prop user "id");
        flow = as_string (prop user "flow");
        encryption = or_none (as_string_or (prop user "encryption") "none");
        reverse_tag = tag;
        reverse_sniffing =
            if is_empty tag
            then reverse_sniffing_default
            else reverse_sniffing_from_wire (prop reverse "sniffing");
        testpre = as_number rt (prop raw "testpre") (web.number 0);
        testseed = if is_testseed saved then saved else default_testseed;
      }

  -- A non-empty `vnext` takes the place of the flat settings.
  unfoldable pub vless_read : Fields N → List (Value N) → VlessForm N
  unfolding vless_from
  vless_read raw [] = vless_from raw raw raw
  vless_read raw (v ∷ vs) = vless_from raw (as_object v) (first_object (as_object v) "users")

  unfoldable pub vless_from_wire : Fields N → VlessForm N
  unfolding vless_read as_array prop
  vless_from_wire raw = vless_read raw (as_array (prop raw "vnext"))

  -- The sniffing that goes with a reverse tag: `{}` for the default.
  unfoldable pub sniffing_to_wire : ReverseSniffing → Fields N
  unfolding reverse_sniffing_to_wire
  sniffing_to_wire s =
      if str_eq (web.stringify (obj (reverse_sniffing_to_wire s)))
        (web.stringify (obj (reverse_sniffing_to_wire reverse_sniffing_default)))
      then end
      else reverse_sniffing_to_wire s

  -- What is appended for a reverse tag, and for the Vision flow.
  unfoldable pub reverse_fields : VlessForm N → Fields N
  unfolding sniffing_to_wire
  reverse_fields s =
      if is_empty s.reverse_tag
      then end
      else field "reverse"
          (obj (
            field "tag" (str s.reverse_tag)
              (field "sniffing" (obj (sniffing_to_wire s.reverse_sniffing)) end)))
          end

  unfoldable pub vision_fields : VlessForm N → Fields N → Fields N
  unfolding is_testseed with_prop of_items
  vision_fields s flat =
      let early =
        if web.is_positive s.testpre then with_prop "testpre" (num s.testpre) flat else flat in
      if is_testseed s.testseed
      then with_prop "testseed" (arr (of_items s.testseed)) early
      else early

  unfoldable pub vless_to_wire : VlessForm N → Fields N
  unfolding reverse_fields vision_fields
  vless_to_wire s =
      let flat : Fields N = field "address" (str s.address) (
        field "port" (num s.port) (
          field "id" (str s.id) (
            field "flow" (str s.flow)
              (field "encryption" (str (or_none s.encryption)) (reverse_fields s))))) in
      if str_eq s.flow "xtls-rprx-vision" then vision_fields s flat else flat
