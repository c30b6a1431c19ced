-- ===== src/InboundTag.antt =====
-- frontend/src/lib/xray/inbound-tag.ts: the tag that the backend derives for an inbound. A set of
-- transports is the pair of its bits, and `none` stands for an object that is not there.
pub mod Auto
mod Tests
use x_ui_glass.Shared.{
  ℕ, String, Bool, true, false, not, ◌&&◌, ◌||◌, Option, none, some, List, [], ◌∷◌, if◌then◌else◌,
  is_empty, str_eq, split, trim, after, all_digits, ◌+++◌, maybe,
}
use x_ui_glass.Shared.Property.{lookup}
use x_ui_glass.Shared.Numeral.{decimal}
use x_ui_glass.Json.{Value, undefined, bool, str, Fields, prop}

-- The bits of `TCP` and `UDP`.
pub record Transports : Type 0 where
  pub on_tcp : Bool
  pub on_udp : Bool

abbrev pub transports : Bool → Bool → Transports
transports t u = record { on_tcp = t; on_udp = u }

-- `for (const part of n.split(','))`
unfoldable pub add_parts : List String → Transports → Transports
unfolding trim
add_parts [] bits = bits
add_parts (part ∷ parts) bits =
    let p = trim part in
    add_parts parts (
      transports (bits.on_tcp || str_eq p "tcp")
        (bits.on_udp || (not (str_eq p "tcp") && str_eq p "udp")))

-- `if (bits === 0) bits = TCP`
abbrev pub or_tcp : Transports → Transports
or_tcp bits = if bits.on_tcp || bits.on_udp then bits else transports true false

module _ {N : Type 0} where
  unfoldable pub as_string : Value N → String
  as_string (str s) = s
  as_string v = ""

  -- `o?.[k]`
  unfoldable pub optional : Option (Fields N) → String → Value N
  unfolding prop
  optional none k = undefined
  optional (some fs) k = prop fs k

  abbrev pub is_true : Value N → Bool
  is_true (bool b) = b
  is_true v = false

  -- The bits that the settings leave, for those of the network.
  unfoldable pub with_settings : String → Fields N → Transports → Transports
  unfolding add_parts as_string split prop
  with_settings protocol settings bits =
      if str_eq protocol "shadowsocks" || str_eq protocol "tunnel"
      then (let n =
            as_string
              (prop settings (if str_eq protocol "tunnel" then "allowedNetwork" else "network")) in
          if is_empty n then bits else add_parts (split b',' n) (transports false false))
      else if str_eq protocol "mixed" && is_true (prop settings "udp")
      then transports bits.on_tcp true
      else bits

  -- The transports of a protocol that is not UDP alone.
  unfoldable pub listed_transports : String → Option (Fields N) → Option (Fields N) → Transports
  unfolding with_settings optional as_string
  listed_transports protocol stream settings =
      let network = as_string (optional stream "network") in
      let bits =
        if str_eq network "kcp" || str_eq network "quic"
        then transports false true
        else transports true false in
      maybe settings bits (λ s. with_settings protocol s bits)

  unfoldable pub inbound_transports : String → Option (Fields N) → Option (Fields N) → Transports
  unfolding listed_transports
  inbound_transports protocol stream settings =
      if str_eq protocol "hysteria" || str_eq protocol "wireguard"
      then transports false true
      else or_tcp (listed_transports protocol stream settings)

-- `transportTagSuffix`
abbrev pub tag_suffix : Bool → Bool → String
tag_suffix true false = "tcp"
tag_suffix false true = "udp"
tag_suffix true true = "tcpudp"
tag_suffix false false = "any"

unfoldable pub base_inbound_tag : ℕ → String
unfolding decimal
base_inbound_tag port = "in-" +++ decimal port

unfoldable pub node_tag_prefix : Option ℕ → String
unfolding decimal
node_tag_prefix none = ""
node_tag_prefix (some id) = "n" +++ decimal id +++ "-"

pub record InboundTagInput (N : Type 0) : Type 0 where
  pub port : Option ℕ
  pub node_id : Option ℕ
  pub protocol : String
  pub stream_settings : Option (Fields N)
  pub settings : Option (Fields N)

abbrev port_or_zero : Option ℕ → ℕ
port_or_zero none = 0
port_or_zero (some p) = p

-- `suffix !== '' && /^[0-9]+$/.test(suffix)` of what stands behind a prefix
unfoldable pub numbered : Option String → Bool
unfolding all_digits
numbered none = false
numbered (some suffix) = not (is_empty suffix) && all_digits suffix

module _ {N : Type 0} where
  unfoldable pub compose_inbound_tag : InboundTagInput N → String
  unfolding inbound_transports base_inbound_tag node_tag_prefix
  compose_inbound_tag input =
      let bits = inbound_transports input.protocol input.stream_settings input.settings in
      node_tag_prefix input.node_id
      +++ base_inbound_tag (port_or_zero input.port)
      +++ "-"
      +++ tag_suffix bits.on_tcp bits.on_udp

  unfoldable pub is_auto_inbound_tag : String → InboundTagInput N → Bool
  unfolding compose_inbound_tag after numbered
  is_auto_inbound_tag tag input =
      let base = compose_inbound_tag input in
      if is_empty tag
      then true
      else if str_eq tag base
      then true
      else numbered (after (base +++ "-") tag)
