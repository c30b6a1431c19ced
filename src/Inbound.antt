-- ===== src/Inbound.antt =====
-- The inbound records that links are made of: frontend/src/schemas/api/inbound.ts and the schemas
-- under frontend/src/schemas/protocols, with the fields that the link generators read.
use x_ui_glass.Shared.{ℕ, String, Bool, Option, List}
use x_ui_glass.Json.{Value}
use x_ui_glass.Headers.{HeaderMap}

pub record TcpRequest : Type 0 where
  pub path : List String
  pub headers : HeaderMap

-- The header of a TCP transport: `none`, or `http` with its optional request and the headers of
-- its optional response.
pub data TcpHeader : Type 0 where
  plain : TcpHeader
  http : Option TcpRequest → Option HeaderMap → TcpHeader

pub record KcpSettings : Type 0 where
  pub mtu : ℕ
  pub tti : ℕ

-- WebSocket and HTTP upgrade share what the links read.
pub record WsSettings : Type 0 where
  pub path : String
  pub host : String
  pub headers : HeaderMap

pub record GrpcSettings : Type 0 where
  pub service_name : String
  pub authority : String
  pub multi_mode : Bool

-- The texts of an XHTTP transport, by their names, stand in `texts`.
pub record XhttpSettings : Type 0 where
  pub path : String
  pub host : String
  pub mode : String
  pub x_padding_bytes : String
  pub x_padding_obfs_mode : Bool
  pub texts : List (String × String)
  pub headers : Option (List (String × String))

pub data Transport : Type 0 where
  tcp : Option TcpHeader → Transport
  kcp : KcpSettings → Transport
  ws httpupgrade : WsSettings → Transport
  grpc : GrpcSettings → Transport
  xhttp : XhttpSettings → Transport
  hysteria_transport : Transport

abbrev pub network_name : Transport → String
network_name (tcp h) = "tcp"
network_name (kcp k) = "kcp"
network_name (ws w) = "ws"
network_name (httpupgrade w) = "httpupgrade"
network_name (grpc g) = "grpc"
network_name (xhttp x) = "xhttp"
network_name hysteria_transport = "hysteria"

pub record TlsSettings : Type 0 where
  pub server_name : String
  pub alpn : List String
  pub fingerprint : String
  pub ech_config_list : String
  pub pinned_peer_cert_sha256 : List String

-- `server_name` is that of the client half, `settings.serverName`.
pub record RealitySettings : Type 0 where
  pub target : Option String
  pub server_names : Option (List String)
  pub short_ids : List String
  pub public_key : String
  pub fingerprint : String
  pub server_name : String
  pub spider_x : String
  pub mldsa65_verify : String

pub data Security : Type 0 where
  plain_security : Security
  tls : TlsSettings → Security
  reality : RealitySettings → Security

abbrev pub security_name : Security → String
security_name plain_security = "none"
security_name (tls t) = "tls"
security_name (reality r) = "reality"

pub data ForceTls : Type 0 where
  same force_tls force_none : ForceTls

-- `forceTls === 'same' ? stream.security : forceTls`
abbrev pub forced : ForceTls → Security → String
forced same security = security_name security
forced force_tls security = "tls"
forced force_none security = "none"

pub record ExternalProxy : Type 0 where
  pub force : ForceTls
  pub dest : String
  pub port : ℕ
  pub remark : String
  pub sni : Option String
  pub fingerprint : Option String
  pub alpn : Option (List String)

-- `finalmask` is the object that the link carries as JSON.
pub record StreamSettings (N : Type 0) : Type 0 where
  pub transport : Transport
  pub security : Security
  pub external_proxy : List ExternalProxy
  pub finalmask : Option (Value N)

-- The clients of all protocols, with their optional fields.
pub record ClientShape : Type 0 where
  pub id : Option String
  pub security : Option String
  pub flow : Option String
  pub password : Option String
  pub auth : Option String
  pub email : Option String

pub record WireguardPeer : Type 0 where
  pub private_key : Option String
  pub pre_shared_key : Option String
  pub allowed_ips : List String
  pub keep_alive : Option ℕ

pub record WireguardSettings : Type 0 where
  pub mtu : Option ℕ
  pub secret_key : String
  pub peers : List WireguardPeer

-- The protocol with its settings. `vless` has its `encryption`, `shadowsocks` its method and
-- password, `hysteria` its version.
pub data Protocol : Type 0 where
  vmess : Option (List ClientShape) → Protocol
  vless : String → Option (List ClientShape) → Protocol
  trojan : Option (List ClientShape) → Protocol
  shadowsocks : String → String → Option (List ClientShape) → Protocol
  hysteria : ℕ → Option (List ClientShape) → Protocol
  wireguard : WireguardSettings → Protocol
  other_protocol : String → Protocol

pub record Inbound (N : Type 0) : Type 0 where
  pub protocol : Protocol
  pub listen : String
  pub port : ℕ
  pub stream : Option (StreamSettings N)
