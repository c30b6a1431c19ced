-- ===== src/FromDb.antt =====
-- A stored inbound as links need it: frontend/src/lib/xray/stream-defaults.ts and
-- inbound-from-db.ts of the same folder. What a zod schema makes of a value is an argument, with
-- `none` for a failure.
pub mod Defaults
mod Tests
use x_ui_glass.Shared.{
  String, Bool, true, Option, none, some, if◌then◌else◌, str_eq, maybe, or_else,
}
use x_ui_glass.Json.{Value, undefined, null, str, obj, Fields, end, prop, with_prop}
use x_ui_glass.Platform.{Web, nullish}
use x_ui_glass.InboundForm.{coerce_json_object}

-- `safeParse`
abbrev pub Schema : Type 0 → Type 0
Schema N = Value N → Option (Value N)

pub record Schemas (N : Type 0) : Type 0 where
  pub tcp : Schema N
  pub kcp : Schema N
  pub ws : Schema N
  pub grpc : Schema N
  pub http_upgrade : Schema N
  pub xhttp : Schema N
  pub hysteria : Schema N
  pub tls : Schema N
  pub reality : Schema N
  -- `InboundSettingsSchema` at a protocol: the settings of what it parses
  pub settings : String → Fields N → Option (Fields N)

pub record DbInboundLike (N : Type 0) : Type 0 where
  pub port : N
  pub listen : Option String
  pub protocol : String
  pub settings : Value N
  pub stream_settings : Value N
  pub sniffing : Value N
  pub tag : Option String
  pub remark : Option String
  pub enable : Option Bool
  pub expiry_time : Option N
  pub up : Option N
  pub down : Option N
  pub total : Option N

pub record FromDbInbound (N : Type 0) : Type 0 where
  pub protocol : String
  pub port : N
  pub listen : String
  pub tag : String
  pub remark : String
  pub enable : Bool
  pub expiry_time : N
  pub up : N
  pub down : N
  pub total : N
  pub settings : Fields N
  pub stream_settings : Fields N
  pub sniffing : Fields N

module _ {N : Type 0} where
  unfoldable pub parse_or_default : Schema N → Value N → Value N
  unfolding nullish
  parse_or_default schema value =
      or_else (schema (nullish value (obj end))) (or_else (schema (obj end)) value)

  -- The property of a network with its schema, and that of a security; none for any other value.
  abbrev pub network_named : Schemas N → String → Option (String × Schema N)
  network_named ss n =
      if str_eq n "tcp"
      then some ("tcpSettings", ss.tcp)
      else if str_eq n "kcp"
      then some ("kcpSettings", ss.kcp)
      else if str_eq n "ws"
      then some ("wsSettings", ss.ws)
      else if str_eq n "grpc"
      then some ("grpcSettings", ss.grpc)
      else if str_eq n "httpupgrade"
      then some ("httpupgradeSettings", ss.http_upgrade)
      else if str_eq n "xhttp"
      then some ("xhttpSettings", ss.xhttp)
      else if str_eq n "hysteria"
      then some ("hysteriaSettings", ss.hysteria)
      else none

  unfoldable pub network_schema_for : Schemas N → Value N → Option (String × Schema N)
  network_schema_for ss (str n) = network_named ss n
  network_schema_for ss _ = none

  unfoldable pub security_schema_for : Schemas N → Value N → Option (String × Schema N)
  security_schema_for ss (str s) =
      if str_eq s "tls"
      then some ("tlsSettings", ss.tls)
      else if str_eq s "reality"
      then some ("realitySettings", ss.reality)
      else none
  security_schema_for ss _ = none

  unfoldable pub fill_part : Option (String × Schema N) → Fields N → Fields N
  unfolding parse_or_default
  fill_part none out = out
  fill_part (some (key, schema)) out = with_prop key (parse_or_default schema (prop out key)) out

  unfoldable pub fill_stream_defaults : Schemas N → Fields N → Fields N
  unfolding network_schema_for security_schema_for fill_part nullish
  fill_stream_defaults ss stream =
      let network = nullish (prop stream "network") (str "tcp") in
      let security = nullish (prop stream "security") (str "none") in
      fill_part (security_schema_for ss security) (
        fill_part (network_schema_for ss network)
          (with_prop "security" security (with_prop "network" network stream)))

  abbrev pub fill_protocol_settings_defaults : Schemas N → String → Fields N → Fields N
  fill_protocol_settings_defaults ss protocol settings =
      or_else (ss.settings protocol settings) settings

  abbrev pub filled_stream : Schemas N → Fields N → Fields N
  filled_stream ss end = end
  filled_stream ss fs = fill_stream_defaults ss fs

  unfoldable pub inbound_from_db : Web N → Schemas N → DbInboundLike N → FromDbInbound N
  unfolding coerce_json_object fill_stream_defaults
  inbound_from_db web ss raw = record {
    protocol = raw.protocol;
    port = raw.port;
    listen = or_else raw.listen "";
    tag = or_else raw.tag "";
    remark = or_else raw.remark "";
    enable = or_else raw.enable true;
    expiry_time = or_else raw.expiry_time (web.number 0);
    up = or_else raw.up (web.number 0);
    down = or_else raw.down (web.number 0);
    total = or_else raw.total (web.number 0);
    settings =
        fill_protocol_settings_defaults ss raw.protocol (coerce_json_object web raw.settings);
    stream_settings = filled_stream ss (coerce_json_object web raw.stream_settings);
    sniffing = coerce_json_object web raw.sniffing;
  }
