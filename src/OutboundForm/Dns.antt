-- ===== src/OutboundForm/Dns.antt =====
-- `dnsRuleFromWire`, `dnsFromWire`, `dnsRuleToWire` and `dnsToWire`.
use x_ui_glass.Shared.{
  String, Bool, not, ◌||◌, List, [], ◌∷◌, map, if◌then◌else◌, is_empty, str_eq, join, all_digits,
  trim, includes,
}
use x_ui_glass.Json.{
  Value, num, str, arr, obj, Fields, end, field, prop, with_prop, of_items, items,
}
use x_ui_glass.Platform.{nullish}
use x_ui_glass.Coerce.{Runtime, as_object, as_array, as_string_or, as_string, as_number, as_port}
use x_ui_glass.OutboundForm.Settings.{DnsRuleForm, DnsForm}
use x_ui_glass.OutboundForm.Basic.{one_of}
use x_ui_glass.OutboundForm.Wireguard.{split_texts}
use x_ui_glass.OutboundForm.Freedom.{joined_text}

abbrev pub dns_actions : List String
dns_actions = "direct" ∷ "drop" ∷ "return" ∷ "hijack" ∷ []

module _ {N : Type 0} where
  -- `if (test) o[k] = v`
  abbrev pub set_if : Bool → String → Value N → Fields N → Fields N
  unfolding with_prop
  set_if test k v fs = if test then with_prop k v fs else fs

  -- `if (xs.length > 0) o[k] = xs`
  abbrev pub set_values : String → List (Value N) → Fields N → Fields N
  unfolding with_prop of_items
  set_values k [] fs = fs
  set_values k (v ∷ vs) fs = with_prop k (arr (of_items (v ∷ vs))) fs

module _ {N : Type 0} (rt : Runtime N) where
  open rt use {web}

  -- The query types as one text.
  unfoldable pub query_type : Value N → String
  unfolding items join as_string_or
  query_type (arr vs) = join "," (map rt.text_of (items vs))
  query_type (num n) = web.number_text n
  query_type v = as_string v

  unfoldable pub dns_rule_from_wire : Value N → DnsRuleForm N
  unfolding as_object as_string_or as_number prop nullish query_type joined_text includes
  dns_rule_from_wire raw =
      let r = as_object raw in
      record {
        action = one_of dns_actions (as_string_or (prop r "action") "direct") "direct";
        q_type = query_type (nullish (prop r "qType") (prop r "qtype"));
        domain = joined_text (prop r "domain");
        r_code = as_number rt (prop r "rCode") (web.number 0);
      }

  unfoldable pub dns_from_wire : Fields N → DnsForm N
  unfolding as_array as_string_or as_number as_port prop nullish dns_rule_from_wire
  dns_from_wire raw =
      let network = as_string (nullish (prop raw "rewriteNetwork") (prop raw "network")) in
      record {
        rewrite_network = if str_eq network "udp" || str_eq network "tcp" then network else "";
        rewrite_address = as_string (nullish (prop raw "rewriteAddress") (prop raw "address"));
        rewrite_port =
            as_port rt (nullish (prop raw "rewritePort") (prop raw "port")) (web.number 53);
        user_level = as_number rt (prop raw "userLevel") (web.number 0);
        rules = map dns_rule_from_wire (as_array (prop raw "rules"));
      }

  unfoldable pub dns_rule_to_wire : DnsRuleForm N → Value N
  unfolding split_texts trim all_digits includes with_prop
  dns_rule_to_wire r =
      let types = trim r.q_type in
      let value : Value N =
        if all_digits types then num (web.number_of (str types)) else str types in
      let action : Fields N = field "action" (str (one_of dns_actions r.action "direct")) end in
      let typed = set_if (not (is_empty types)) "qType" value action in
      let domains = set_values "domain" (map (λ d. str d) (split_texts r.domain)) typed in
      obj (set_if (web.is_positive r.r_code) "rCode" (num r.r_code) domains)

  unfoldable pub dns_to_wire : DnsForm N → Fields N
  unfolding dns_rule_to_wire with_prop of_items
  dns_to_wire s =
      let network =
        set_if (not (is_empty s.rewrite_network)) "rewriteNetwork" (str s.rewrite_network) end in
      let address =
        set_if (not (is_empty s.rewrite_address)) "rewriteAddress" (str s.rewrite_address)
          network in
      let port =
        set_if (web.is_nonzero s.rewrite_port) "rewritePort" (num s.rewrite_port) address in
      let level = set_if (web.is_nonzero s.user_level) "userLevel" (num s.user_level) port in
      set_values "rules" (map dns_rule_to_wire s.rules) level
