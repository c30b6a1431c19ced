-- ===== src/OutboundForm/Freedom.antt =====
-- `freedomFromWire` and `freedomToWire`.
use x_ui_glass.Shared.{
  String, not, ◌||◌, Option, none, some, List, [], ◌∷◌, map, if◌then◌else◌, is_empty, str_eq, join,
  includes,
}
use x_ui_glass.Json.{Value, undefined, str, arr, obj, Fields, end, field, prop, texts, of_items}
use x_ui_glass.Coerce.{
  Runtime, as_object, as_array, as_string_or, as_string, as_strings, as_number, is_number,
  text_or_undefined, texts_or_undefined, number_or_undefined,
}
use x_ui_glass.OutboundForm.Settings.{FreedomForm, Fragment, Noise, FinalRule}
use x_ui_glass.OutboundForm.Basic.{one_of}

abbrev pub freedom_strategies : List String
freedom_strategies =
    "AsIs" ∷ "UseIP" ∷ "UseIPv4" ∷ "UseIPv6" ∷ "UseIPv6v4" ∷ "UseIPv4v6" ∷ "ForceIP" ∷ "ForceIPv6v4"
    ∷ "ForceIPv6" ∷ "ForceIPv4v6" ∷ "ForceIPv4" ∷ []

abbrev pub no_fragment : Fragment
no_fragment = record { packets = ""; length = ""; interval = ""; max_split = "" }

-- Older settings list blocked addresses: they become one rule where there is no rule.
abbrev pub or_blocked : List FinalRule → List String → List FinalRule
or_blocked (r ∷ rs) blocked = r ∷ rs
or_blocked [] [] = []
or_blocked [] (ip ∷ ips) =
    record { action = "block"; network = ""; port = ""; ip = ip ∷ ips; block_delay = "" } ∷ []

module _ {N : Type 0} where
  -- `Array.isArray(v) ? v.map((x) => asString(x)).join(',') : asString(v)`
  unfoldable pub joined_text : Value N → String
  unfolding as_array as_string_or join
  joined_text (arr vs) = join "," (as_strings (arr vs))
  joined_text v = as_string v

  unfoldable pub noise_from_wire : Value N → Noise
  unfolding as_object as_string_or prop
  noise_from_wire n =
      let nn = as_object n in
      record {
        type = as_string_or (prop nn "type") "rand";
        packet = as_string_or (prop nn "packet") "10-20";
        delay = as_string_or (prop nn "delay") "10-16";
        apply_to = as_string_or (prop nn "applyTo") "ip";
      }

  unfoldable pub final_rule_from_wire : Value N → FinalRule
  unfolding as_object as_array as_string_or prop joined_text
  final_rule_from_wire r =
      let rr = as_object r in
      record {
        action =
            if str_eq (as_string_or (prop rr "action") "block") "allow" then "allow" else "block";
        network = joined_text (prop rr "network");
        port = as_string (prop rr "port");
        ip = as_strings (prop rr "ip");
        block_delay = as_string (prop rr "blockDelay");
      }

  -- A fragment with no property counts as none.
  unfoldable pub fragment_from_wire : Fields N → Fragment
  unfolding as_string_or prop
  fragment_from_wire end = no_fragment
  fragment_from_wire (field k v fs) =
      let fragment = field k v fs in
      record {
        packets = as_string_or (prop fragment "packets") "1-3";
        length = as_string (prop fragment "length");
        interval = as_string (prop fragment "interval");
        max_split = as_string (prop fragment "maxSplit");
      }

  -- The entries whose value is not empty.
  unfoldable pub add_text : String → String → Fields N → Fields N
  add_text k s rest = if is_empty s then rest else field k (str s) rest

  -- Emitted where the length, the interval or the split is set.
  unfoldable pub fragment_to_wire : Option Fragment → Value N
  unfolding add_text
  fragment_to_wire none = undefined
  fragment_to_wire (some f) =
      if not (is_empty f.length) || not (is_empty f.interval) || not (is_empty f.max_split)
      then obj (
          add_text "packets" f.packets (
            add_text "length" f.length
              (add_text "interval" f.interval (add_text "maxSplit" f.max_split end))))
      else undefined

  unfoldable pub noise_to_wire : Noise → Value N
  noise_to_wire n = obj (
      field "type" (str n.type) (
        field "packet" (str n.packet)
          (field "delay" (str n.delay) (field "applyTo" (str n.apply_to) end))))

  unfoldable pub final_rule_to_wire : FinalRule → Value N
  unfolding texts
  final_rule_to_wire r =
      let delay : Value N =
        if str_eq r.action "block" then text_or_undefined r.block_delay else undefined in
      obj (
        field "action" (str r.action) (
          field "network" (text_or_undefined r.network) (
            field "port" (text_or_undefined r.port)
              (field "ip" (texts_or_undefined r.ip) (field "blockDelay" delay end)))))

  -- `xs.length > 0 ? xs : undefined`
  abbrev pub values_or_undefined : List (Value N) → Value N
  values_or_undefined [] = undefined
  values_or_undefined (v ∷ vs) = arr (of_items (v ∷ vs))

module _ {N : Type 0} (rt : Runtime N) where
  open rt use {web}

  unfoldable pub proxy_protocol_from : Value N → N
  unfolding as_number
  proxy_protocol_from v =
      let n = as_number rt v (web.number 0) in
      if is_number rt n 1 || is_number rt n 2 then n else web.number 0

  unfoldable pub freedom_from_wire : Fields N → FreedomForm N
  unfolding as_object as_array as_string_or as_number prop includes noise_from_wire
      final_rule_from_wire fragment_from_wire proxy_protocol_from
  freedom_from_wire raw =
      let rules = map final_rule_from_wire (as_array (prop raw "finalRules")) in
      record {
        domain_strategy = one_of freedom_strategies (as_string (prop raw "domainStrategy")) "";
        redirect = as_string (prop raw "redirect");
        user_level = as_number rt (prop raw "userLevel") (web.number 0);
        proxy_protocol = proxy_protocol_from (prop raw "proxyProtocol");
        fragment = some (fragment_from_wire (as_object (prop raw "fragment")));
        noises = map noise_from_wire (as_array (prop raw "noises"));
        final_rules = or_blocked rules (as_strings (prop raw "ipsBlocked"));
      }

  unfoldable pub freedom_to_wire : FreedomForm N → Fields N
  unfolding fragment_to_wire noise_to_wire final_rule_to_wire of_items
  freedom_to_wire s = field "domainStrategy" (text_or_undefined s.domain_strategy) (
      field "redirect" (text_or_undefined s.redirect) (
        field "userLevel" (number_or_undefined rt s.user_level) (
          field "proxyProtocol" (number_or_undefined rt s.proxy_protocol) (
            field "fragment" (fragment_to_wire s.fragment) (
              field "noises" (values_or_undefined (map noise_to_wire s.noises)) (
                field "finalRules" (values_or_undefined (map final_rule_to_wire s.final_rules))
                  end))))))
