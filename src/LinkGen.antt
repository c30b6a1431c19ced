-- ===== src/LinkGen.antt =====
-- frontend/src/lib/xray/inbound-link.ts: share links of an inbound. `Query` has what the stream
-- puts into a link, this file the generators. `""` means that an inbound has no such link, and
-- `none` that the URL constructor throws.
mod Query
mod Vmess
mod Urls
mod Tests
mod Written
pub mod VlessParams
pub mod RoundTrip
pub mod Trojan
pub mod FanOut
use x_ui_glass.Shared.{
  ℕ, suc, ◌+◌, String, Bool, true, false, not, ◌||◌, ◌&&◌, Option, none, some, List, [], ◌∷◌, ◌++◌,
  if◌then◌else◌, maybe, is_empty, or_else, or_text, keep, str_eq, is_some, join, after, first_chars,
  ◌+++◌, ◌>>=◌, map, ltb, ◌==◌, leb, any,
}
use x_ui_glass.Shared.Property.{map_set}
use x_ui_glass.Shared.Numeral.{decimal}
use x_ui_glass.Headers.{HeaderMap, get_header_value}
use x_ui_glass.Json.{
  Value, undefined, num, str, arr, obj, items, Fields, end, field, prop, with_prop, entries,
}
use x_ui_glass.Platform.{Web, Url, is_text}
use x_ui_glass.Inbound.{
  TcpHeader, plain, http, XhttpSettings, Transport, tcp, kcp, ws, httpupgrade, grpc, xhttp,
  hysteria_transport, network_name, TlsSettings, Security, plain_security, tls, reality,
  security_name, ForceTls, same, forced, ExternalProxy, StreamSettings, ClientShape, WireguardPeer,
  WireguardSettings, Protocol, vmess, vless, trojan, shadowsocks, hysteria, wireguard,
  other_protocol, Inbound,
}
unfoldable pub use Query.*
unfoldable pub use Vmess.*
unfoldable pub use Urls.*

-- `{ i: remark, e: email, o: proxyRemark }[c] ?? ''`
abbrev piece : String → String → String → String → String
piece remark email proxy_remark c =
    if str_eq c "i"
    then remark
    else if str_eq c "e"
    then email
    else if str_eq c "o"
    then proxy_remark
    else ""

pieces : String → String → String → String → List String
pieces remark email proxy_remark String.[] = []
pieces remark email proxy_remark (String.◌∷◌ c s) =
    piece remark email proxy_remark (String.◌∷◌ c String.[]) ∷ pieces remark email proxy_remark s

abbrev separator : String → String
separator String.[] = ""
separator (String.◌∷◌ c s) = String.◌∷◌ c String.[]

abbrev order_chars : String → String
order_chars String.[] = ""
order_chars (String.◌∷◌ c s) = s

-- The remark of a link, by the pieces that the model of remarks names after its separator.
unfoldable pub compose_remark : String → String → String → String → String
unfolding pieces join keep
compose_remark model remark email proxy_remark =
    join (separator model)
      (keep (λ p. not (is_empty p)) (pieces remark email proxy_remark (order_chars model)))

unfoldable pub is_unix_socket_listen : String → Bool
unfolding after
is_unix_socket_listen listen = is_some (after "/" listen) || is_some (after "@" listen)

clients_of : Protocol → Option (List ClientShape)
clients_of (vmess clients) = some (or_else clients [])
clients_of (vless encryption clients) = some (or_else clients [])
clients_of (trojan clients) = some (or_else clients [])
clients_of (hysteria version clients) = some (or_else clients [])
clients_of (shadowsocks method password clients) =
    if not (str_eq method single_user_method) then some (or_else clients []) else none
clients_of _ = none

module _ {N : Type 0} where
  unfoldable pub resolve_addr : Inbound N → String → String → String
  unfolding is_unix_socket_listen
  resolve_addr inbound host_override fallback_hostname =
      if not (is_empty host_override)
      then host_override
      else if not (is_empty inbound.listen)
          && not (str_eq inbound.listen "0.0.0.0")
          && not (is_unix_socket_listen inbound.listen)
      then inbound.listen
      else fallback_hostname

  unfoldable pub get_inbound_clients : Inbound N → Option (List ClientShape)
  unfolding clients_of
  get_inbound_clients inbound = clients_of inbound.protocol

-- All results, if none throws.
unfoldable pub sequence {ℓ} : {A : Type ℓ} → List (Option A) → Option (List A)
sequence [] = some []
sequence (none ∷ rest) = none
sequence (some a ∷ rest) = do more ← sequence rest; some (a ∷ more)

has_infix : String → String → Bool
unfolding after
has_infix p String.[] = is_some (after p "")
has_infix p (String.◌∷◌ c s) = is_some (after p (String.◌∷◌ c s)) || has_infix p s

unfoldable pub is_post_quantum_link : String → Bool
unfolding has_infix
is_post_quantum_link link =
    has_infix "?pqv=" link
    || has_infix "&pqv=" link
    || has_infix "mlkem768" link
    || has_infix "mldsa65" link
    || has_infix "ML-KEM-768" link

pub record LinkEntry : Type 0 where
  pub remark : String
  pub link : String

-- What all links of an inbound share: its remark, the model of remarks, and the hosts.
pub record Naming : Type 0 where
  pub remark : String
  pub remark_model : String
  pub host_override : String
  pub fallback_hostname : String

module _ {N : Type 0} (web : Web N) where
  unfoldable pub gen_link :
      Inbound N → Target → ForceTls → ClientShape → Option ExternalProxy → Option String
  unfolding gen_vmess_link gen_vless_link gen_shadowsocks_link gen_trojan_link gen_hysteria_link
  gen_link inbound target force client proxy = elim inbound.protocol [
    | vmess clients ↦
        gen_vmess_link web inbound target force (or_else client.id "") client.security proxy
    | vless encryption clients ↦
        gen_vless_link web inbound target force (or_else client.id "") (or_else client.flow "")
          proxy
    | shadowsocks method password clients ↦
        gen_shadowsocks_link web inbound target force
          (if not (str_eq method single_user_method) then or_else client.password "" else "") proxy
    | trojan clients ↦ gen_trojan_link web inbound target force (or_else client.password "") proxy
    | hysteria version clients ↦ gen_hysteria_link web inbound target (or_else client.auth "")
    | _ ↦ some ""
  ]

  abbrev named_entry : String → Option String → Option LinkEntry
  named_entry remark link = do l ← link; some (record { remark = remark; link = l })

  abbrev pub proxies_of : Option (StreamSettings N) → List ExternalProxy
  proxies_of none = []
  proxies_of (some stream) = stream.external_proxy

  -- The link through one external proxy.
  proxy_entry : Inbound N → Naming → ClientShape → ExternalProxy → Option LinkEntry
  unfolding gen_link compose_remark
  proxy_entry inbound naming client p =
      let r = compose_remark naming.remark_model naming.remark (or_else client.email "") p.remark in
      named_entry r (
        gen_link inbound (record { address = p.dest; port = p.port; remark = r }) p.force client
          (some p))

  direct_entry : Inbound N → Naming → ClientShape → Option LinkEntry
  unfolding gen_link compose_remark resolve_addr
  direct_entry inbound naming client =
      let r = compose_remark naming.remark_model naming.remark (or_else client.email "") "" in
      let address = resolve_addr inbound naming.host_override naming.fallback_hostname in
      named_entry r (
        gen_link inbound (record { address = address; port = inbound.port; remark = r }) same client
          none)

  fan_out : List ExternalProxy → Inbound N → Naming → ClientShape → Option (List LinkEntry)
  unfolding sequence proxy_entry direct_entry
  fan_out [] inbound naming client = sequence (direct_entry inbound naming client ∷ [])
  fan_out (p ∷ ps) inbound naming client =
      sequence (map (proxy_entry inbound naming client) (p ∷ ps))

  unfoldable pub gen_all_links : Inbound N → Naming → ClientShape → Option (List LinkEntry)
  unfolding fan_out
  gen_all_links inbound naming client = fan_out (proxies_of inbound.stream) inbound naming client

  peer_target : Inbound N → Naming → ℕ → Target
  unfolding resolve_addr decimal
  peer_target inbound naming i = record {
    address = resolve_addr inbound naming.host_override naming.fallback_hostname;
    port = inbound.port;
    remark = naming.remark +++ separator naming.remark_model +++ decimal (i + 1);
  }

  wireguard_links_from :
      Inbound N → Naming → WireguardSettings → ℕ → List WireguardPeer → List (Option String)
  unfolding peer_target gen_wireguard_link
  wireguard_links_from inbound naming settings i [] = []
  wireguard_links_from inbound naming settings i (p ∷ ps) =
      gen_wireguard_link web settings (peer_target inbound naming i) (some p)
      ∷ wireguard_links_from inbound naming settings (suc i) ps

  wireguard_configs_from :
      Inbound N → Naming → WireguardSettings → ℕ → List WireguardPeer → List String
  unfolding peer_target gen_wireguard_config
  wireguard_configs_from inbound naming settings i [] = []
  wireguard_configs_from inbound naming settings i (p ∷ ps) =
      gen_wireguard_config web settings (peer_target inbound naming i) (some p)
      ∷ wireguard_configs_from inbound naming settings (suc i) ps

  unfoldable pub gen_wireguard_links : Inbound N → Naming → Option String
  unfolding wireguard_links_from sequence join
  gen_wireguard_links inbound naming = elim inbound.protocol [
    | wireguard settings ↦ do
      links ← sequence (wireguard_links_from inbound naming settings 0 settings.peers)
      some (join "\r\n" links)
    | _ ↦ some ""
  ]

  unfoldable pub gen_wireguard_configs : Inbound N → Naming → String
  unfolding wireguard_configs_from join
  gen_wireguard_configs inbound naming = elim inbound.protocol [
    | wireguard settings ↦
        join "\r\n" (wireguard_configs_from inbound naming settings 0 settings.peers)
    | _ ↦ ""
  ]

  -- The links of every client, in order.
  unfoldable pub client_links : Inbound N → Naming → List ClientShape → Option (List String)
  unfolding gen_all_links
  client_links inbound naming [] = some []
  client_links inbound naming (c ∷ cs) = do
    entries ← gen_all_links inbound naming c
    rest ← client_links inbound naming cs
    some (map (λ e. e.link) entries ++ rest)

  -- The last branches of `genInboundLinks`, for an inbound without clients.
  clientless_links : Inbound N → Naming → Protocol → Option String
  unfolding gen_shadowsocks_link gen_wireguard_configs resolve_addr
  clientless_links inbound naming (shadowsocks method password clients) =
      gen_shadowsocks_link web inbound
        (record {
          address = resolve_addr inbound naming.host_override naming.fallback_hostname;
          port = inbound.port;
          remark = naming.remark;
        })
        same "" none
  clientless_links inbound naming (wireguard settings) = some (gen_wireguard_configs inbound naming)
  clientless_links inbound naming protocol = some ""

  unfoldable pub gen_inbound_links : Inbound N → Naming → Option String
  unfolding client_links clientless_links get_inbound_clients join
  gen_inbound_links inbound naming =
      maybe (get_inbound_clients inbound) (clientless_links inbound naming inbound.protocol)
        (λ clients. do links ← client_links inbound naming clients; some (join "\r\n" links))
