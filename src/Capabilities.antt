-- ===== src/Capabilities.antt =====
-- frontend/src/lib/xray/protocol-capabilities.ts: what an inbound's protocol, network and security
-- allow. `none` stands for a property that is not there.
mod Rules
mod Tests
use x_ui_glass.Shared.{
  String, Bool, true, false, not, ◌&&◌, ◌||◌, Option, none, some, List, [], ◌∷◌, if◌then◌else◌,
  str_eq, or_else, includes, any, first_chars, maybe,
}

abbrev pub tls_eligible_protocols : List String
tls_eligible_protocols = "vmess" ∷ "vless" ∷ "trojan" ∷ "shadowsocks" ∷ []

abbrev pub tls_networks : List String
tls_networks = "tcp" ∷ "ws" ∷ "http" ∷ "grpc" ∷ "httpupgrade" ∷ "xhttp" ∷ []

abbrev pub reality_eligible_protocols : List String
reality_eligible_protocols = "vless" ∷ "trojan" ∷ []

abbrev pub reality_networks : List String
reality_networks = "tcp" ∷ "http" ∷ "grpc" ∷ "xhttp" ∷ []

abbrev pub stream_protocols : List String
stream_protocols = "vmess" ∷ "vless" ∷ "trojan" ∷ "shadowsocks" ∷ "hysteria" ∷ []

abbrev pub vision_flow : String
vision_flow = "xtls-rprx-vision"

abbrev pub ss_2022_prefix : String
ss_2022_prefix = "2022"

abbrev pub ss_blake3_chacha20 : String
ss_blake3_chacha20 = "2022-blake3-chacha20-poly1305"

pub record StreamSlice : Type 0 where
  pub network : Option String
  pub security : Option String

-- `clients` is the flow of each client.
pub record Slice : Type 0 where
  pub protocol : String
  pub stream : Option StreamSlice
  pub method : Option String
  pub clients : Option (List (Option String))

-- `values.streamSettings?.network`
abbrev pub network_of : Slice → Option String
network_of values = maybe values.stream none (λ s. s.network)

abbrev pub security_of : Slice → Option String
security_of values = maybe values.stream none (λ s. s.security)

abbrev pub is_value : Option String → String → Bool
is_value o s = maybe o false (λ t. str_eq t s)

unfoldable pub can_enable_tls : Slice → Bool
unfolding includes
can_enable_tls values =
    if str_eq values.protocol "hysteria"
    then true
    else if not (includes tls_eligible_protocols values.protocol)
    then false
    else includes tls_networks (or_else (network_of values) "")

unfoldable pub can_enable_reality : Slice → Bool
unfolding includes
can_enable_reality values =
    if not (includes reality_eligible_protocols values.protocol)
    then false
    else includes reality_networks (or_else (network_of values) "")

unfoldable pub can_enable_tls_flow : Slice → Bool
can_enable_tls_flow values =
    if not (is_value (security_of values) "tls") && not (is_value (security_of values) "reality")
    then false
    else if not (is_value (network_of values) "tcp")
    then false
    else str_eq values.protocol "vless"

unfoldable pub can_enable_stream : String → Bool
unfolding includes
can_enable_stream protocol = includes stream_protocols protocol

unfoldable pub can_enable_vision_seed : Slice → Bool
unfolding can_enable_tls_flow any
can_enable_vision_seed values =
    if not (can_enable_tls_flow values)
    then false
    else maybe values.clients false (any (λ flow. is_value flow vision_flow))

abbrev pub method_of : Slice → String
method_of values = if str_eq values.protocol "shadowsocks" then or_else values.method "" else ""

unfoldable pub is_ss_multi_user : Slice → Bool
is_ss_multi_user values = not (str_eq (method_of values) ss_blake3_chacha20)

unfoldable pub is_ss2022 : Slice → Bool
unfolding first_chars
is_ss2022 values = str_eq (first_chars 4 (method_of values)) ss_2022_prefix
