-- ===== src/OutboundForm.antt =====
-- frontend/src/lib/xray/outbound-form-adapter.ts: an outbound record to what the outbound form
-- holds, and back. `Settings` has the form's records, `Basic`, `Vless`, `Wireguard`, `Freedom` and
-- `Dns` the settings of the protocols, `Stream` the stream settings, this file the two adapters.
mod Settings
mod Basic
mod Vless
mod Wireguard
mod Freedom
mod Dns
mod Stream
pub mod Allowed
pub mod Accepted
pub mod Ranges
pub mod Read
mod KeptParts
pub mod KeptLists
pub mod KeptDns
mod VlessWritten
pub mod KeptVless
pub mod RoundTrip
pub mod Payload
pub mod StreamFields
pub mod Imported
mod Tests
pub mod Recover
use x_ui_glass.Shared.{
  String, Bool, true, false, not, ◌&&◌, Option, none, some, List, [], ◌∷◌, if◌then◌else◌, maybe,
  is_empty, str_eq, includes,
}
use x_ui_glass.Json.{Value, str, arr, obj, nil, cons, Fields, end, field, prop, with_prop}
use x_ui_glass.Platform.{is_text, is_truthy}
use x_ui_glass.Coerce.{Runtime, as_object, as_string_or, as_string}
unfoldable pub use Settings.*
unfoldable pub use Basic.*
unfoldable pub use Vless.*
unfoldable pub use Wireguard.*
unfoldable pub use Freedom.*
unfoldable pub use Dns.*
unfoldable pub use Stream.*

abbrev mux_protocols : List String
mux_protocols = "vmess" ∷ "vless" ∷ "trojan" ∷ "shadowsocks" ∷ "http" ∷ "socks" ∷ []

abbrev stream_protocols : List String
stream_protocols = "vmess" ∷ "vless" ∷ "trojan" ∷ "shadowsocks" ∷ "hysteria" ∷ []

module _ {N : Type 0} where
  -- `values.protocol`
  unfoldable pub protocol_of : OutboundSettings N → String
  protocol_of (OutboundSettings.vmess s) = "vmess"
  protocol_of (OutboundSettings.vless s) = "vless"
  protocol_of (OutboundSettings.trojan s) = "trojan"
  protocol_of (OutboundSettings.shadowsocks s) = "shadowsocks"
  protocol_of (OutboundSettings.socks s) = "socks"
  protocol_of (OutboundSettings.http s) = "http"
  protocol_of (OutboundSettings.wireguard s) = "wireguard"
  protocol_of (OutboundSettings.hysteria s) = "hysteria"
  protocol_of (OutboundSettings.freedom s) = "freedom"
  protocol_of (OutboundSettings.blackhole s) = "blackhole"
  protocol_of (OutboundSettings.dns s) = "dns"
  protocol_of (OutboundSettings.loopback s) = "loopback"

  -- The stream that the form gets: `hasStream` asks for an object with a property.
  unfoldable pub stream_of : Value N → Option (Fields N)
  unfolding spread
  stream_of (obj (field k v fs)) = some (field k v fs)
  stream_of (arr (cons v vs)) = some (spread (arr (cons v vs)))
  stream_of v = none

  abbrev pub flow_of : OutboundSettings N → String
  flow_of (OutboundSettings.vless s) = s.flow
  flow_of s = ""

  unfoldable pub mux_allowed : OutboundValues N → Bool
  unfolding includes protocol_of prop is_text
  mux_allowed values =
      let network = maybe values.stream Value.undefined (λ stream. prop stream "network") in
      includes mux_protocols (protocol_of values.settings)
      && is_empty (flow_of values.settings)
      && not (is_text network "xhttp")

module _ {N : Type 0} (rt : Runtime N) where
  open rt use {web}

  unfoldable pub settings_from_wire : String → Fields N → OutboundSettings N
  unfolding vmess_from_wire vless_from_wire trojan_from_wire shadowsocks_from_wire
      simple_auth_from_wire wireguard_from_wire hysteria_from_wire freedom_from_wire
      blackhole_from_wire dns_from_wire loopback_from_wire
  settings_from_wire protocol raw =
      if str_eq protocol "vmess"
      then OutboundSettings.vmess (vmess_from_wire rt raw)
      else if str_eq protocol "vless"
      then OutboundSettings.vless (vless_from_wire rt raw)
      else if str_eq protocol "trojan"
      then OutboundSettings.trojan (trojan_from_wire rt raw)
      else if str_eq protocol "shadowsocks"
      then OutboundSettings.shadowsocks (shadowsocks_from_wire rt raw)
      else if str_eq protocol "socks"
      then OutboundSettings.socks (simple_auth_from_wire rt raw (web.number 1080))
      else if str_eq protocol "http"
      then OutboundSettings.http (simple_auth_from_wire rt raw (web.number 8080))
      else if str_eq protocol "wireguard"
      then OutboundSettings.wireguard (wireguard_from_wire rt raw)
      else if str_eq protocol "hysteria"
      then OutboundSettings.hysteria (hysteria_from_wire rt raw)
      else if str_eq protocol "freedom"
      then OutboundSettings.freedom (freedom_from_wire rt raw)
      else if str_eq protocol "blackhole"
      then OutboundSettings.blackhole (blackhole_from_wire raw)
      else if str_eq protocol "dns"
      then OutboundSettings.dns (dns_from_wire rt raw)
      else if str_eq protocol "loopback"
      then OutboundSettings.loopback (loopback_from_wire raw)
      else OutboundSettings.vless (vless_from_wire rt raw)

  unfoldable pub raw_outbound_to_form_values : Fields N → OutboundValues N
  unfolding settings_from_wire as_object as_string_or prop mux_from_wire stream_of
      hydrate_stream_form
  raw_outbound_to_form_values raw = record {
    settings =
        settings_from_wire (as_string_or (prop raw "protocol") "vless")
          (as_object (prop raw "settings"));
    tag = as_string (prop raw "tag");
    send_through = as_string (prop raw "sendThrough");
    mux = some (mux_from_wire rt (prop raw "mux"));
    stream =
        maybe (stream_of (prop raw "streamSettings")) none
          (λ stream. some (hydrate_stream_form rt stream));
  }

  unfoldable pub settings_to_wire : OutboundSettings N → Fields N
  unfolding vmess_to_wire vless_to_wire trojan_to_wire shadowsocks_to_wire simple_auth_to_wire
      wireguard_to_wire hysteria_to_wire freedom_to_wire blackhole_to_wire dns_to_wire
      loopback_to_wire
  settings_to_wire (OutboundSettings.vmess s) = vmess_to_wire s
  settings_to_wire (OutboundSettings.vless s) = vless_to_wire rt s
  settings_to_wire (OutboundSettings.trojan s) = trojan_to_wire s
  settings_to_wire (OutboundSettings.shadowsocks s) = shadowsocks_to_wire s
  settings_to_wire (OutboundSettings.socks s) = simple_auth_to_wire s
  settings_to_wire (OutboundSettings.http s) = simple_auth_to_wire s
  settings_to_wire (OutboundSettings.wireguard s) = wireguard_to_wire rt s
  settings_to_wire (OutboundSettings.hysteria s) = hysteria_to_wire s
  settings_to_wire (OutboundSettings.freedom s) = freedom_to_wire rt s
  settings_to_wire (OutboundSettings.blackhole type) = blackhole_to_wire type
  settings_to_wire (OutboundSettings.dns s) = dns_to_wire rt s
  settings_to_wire (OutboundSettings.loopback tag) = loopback_to_wire tag

  -- The stream settings that are emitted, if any: a protocol without a stream keeps its `sockopt`.
  unfoldable pub stream_to_wire : String → Fields N → Option (Value N)
  unfolding includes strip_ui_only_stream_fields prop is_truthy
  stream_to_wire protocol stream =
      let sockopt = prop stream "sockopt" in
      if includes stream_protocols protocol
      then some (obj (strip_ui_only_stream_fields stream))
      else if is_truthy web sockopt
      then some (obj (field "sockopt" sockopt end))
      else none

  -- What an optional part of the payload appends.
  abbrev pub part : String → Option (Value N) → Fields N → Fields N
  part k none rest = rest
  part k (some v) rest = field k v rest

  abbrev pub text_part : String → Option (Value N)
  text_part s = if is_empty s then none else some (str s)

  unfoldable pub mux_part : OutboundValues N → Option (Value N)
  unfolding mux_allowed mux_to_wire
  mux_part values =
      maybe values.mux none
        (λ m. if m.enabled && mux_allowed values then some (mux_to_wire m) else none)

  unfoldable pub form_values_to_wire_payload : OutboundValues N → Fields N
  unfolding protocol_of settings_to_wire stream_to_wire mux_part
  form_values_to_wire_payload values =
      let protocol = protocol_of values.settings in
      field "protocol" (str protocol) (
        field "settings" (obj (settings_to_wire values.settings)) (
          part "tag" (text_part values.tag) (
            part "streamSettings" (maybe values.stream none (stream_to_wire protocol)) (
              part "sendThrough" (text_part values.send_through)
                (part "mux" (mux_part values) end)))))
