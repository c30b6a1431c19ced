-- ===== src/OutboundForm/Settings.antt =====
-- frontend/src/schemas/forms/outbound-form.ts: what the outbound form holds.
use x_ui_glass.Shared.{String, Bool, List, Option}
use x_ui_glass.Json.{Value, Fields}

module _ (N : Type 0) where
  pub record VmessForm : Type 0 where
    pub address : String
    pub port : N
    pub id : String
    pub security : String

  pub record TrojanForm : Type 0 where
    pub address : String
    pub port : N
    pub password : String

  pub record ShadowsocksForm : Type 0 where
    pub address : String
    pub port : N
    pub password : String
    pub method : String
    pub uot : Bool
    pub uot_version : N

  -- SOCKS and HTTP.
  pub record SimpleAuth : Type 0 where
    pub address : String
    pub port : N
    pub user : String
    pub pass : String

  pub record WireguardFormPeer : Type 0 where
    pub public_key : String
    pub psk : String
    pub allowed_ips : List String
    pub endpoint : String
    pub keep_alive : N

  pub record WireguardForm : Type 0 where
    pub mtu : N
    pub secret_key : String
    pub pub_key : String
    pub address : String
    pub workers : N
    pub domain_strategy : String
    pub reserved : String
    pub peers : List WireguardFormPeer
    pub no_kernel_tun : Bool

  pub record HysteriaForm : Type 0 where
    pub address : String
    pub port : N
    pub version : N

  pub record MuxForm : Type 0 where
    pub enabled : Bool
    pub concurrency : N
    pub xudp_concurrency : N
    pub xudp_proxy_udp443 : String

  pub record DnsRuleForm : Type 0 where
    pub action : String
    pub q_type : String
    pub domain : String
    pub r_code : N

  pub record DnsForm : Type 0 where
    pub rewrite_network : String
    pub rewrite_address : String
    pub rewrite_port : N
    pub user_level : N
    pub rules : List DnsRuleForm

pub record ReverseSniffing : Type 0 where
  pub enabled : Bool
  pub dest_override : List String
  pub metadata_only : Bool
  pub route_only : Bool
  pub ips_excluded : List String
  pub domains_excluded : List String

pub record Fragment : Type 0 where
  pub packets : String
  pub length : String
  pub interval : String
  pub max_split : String

pub record Noise : Type 0 where
  pub type : String
  pub packet : String
  pub delay : String
  pub apply_to : String

pub record FinalRule : Type 0 where
  pub action : String
  pub network : String
  pub port : String
  pub ip : List String
  pub block_delay : String

module _ (N : Type 0) where
  pub record VlessForm : Type 0 where
    pub address : String
    pub port : N
    pub id : String
    pub flow : String
    pub encryption : String
    pub reverse_tag : String
    pub reverse_sniffing : ReverseSniffing
    pub testpre : N
    pub testseed : List (Value N)

  -- `fragment` is missing where its switch is off.
  pub record FreedomForm : Type 0 where
    pub domain_strategy : String
    pub redirect : String
    pub user_level : N
    pub proxy_protocol : N
    pub fragment : Option Fragment
    pub noises : List Noise
    pub final_rules : List FinalRule

  -- `OutboundFormSettings`: the protocol and its settings.
  pub data OutboundSettings : Type 0 where
    vmess : VmessForm N → OutboundSettings
    vless : VlessForm → OutboundSettings
    trojan : TrojanForm N → OutboundSettings
    shadowsocks : ShadowsocksForm N → OutboundSettings
    socks http : SimpleAuth N → OutboundSettings
    wireguard : WireguardForm N → OutboundSettings
    hysteria : HysteriaForm N → OutboundSettings
    freedom : FreedomForm → OutboundSettings
    blackhole : String → OutboundSettings
    dns : DnsForm N → OutboundSettings
    loopback : String → OutboundSettings

  -- `OutboundFormValues`; the fields of the stream are kept as values, since the adapter asks only
  -- for a few of them.
  pub record OutboundValues : Type 0 where
    pub settings : OutboundSettings
    pub tag : String
    pub send_through : String
    pub mux : Option (MuxForm N)
    pub stream : Option (Fields N)
