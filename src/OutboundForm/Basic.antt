-- ===== src/OutboundForm/Basic.antt =====
-- The protocols with a server and a few texts: `vmessFromWire`, `trojanFromWire`,
-- `shadowsocksFromWire`, `simpleAuthFromWire`, `hysteriaFromWire`, `blackholeFromWire`,
-- `loopbackFromWire` and `muxFromWire`, and what writes them back.
use x_ui_glass.Shared.{String, ◌||◌, List, [], ◌∷◌, if◌then◌else◌, is_empty, str_eq, includes}
use x_ui_glass.Json.{
  Value, undefined, bool, num, str, arr, obj, nil, cons, Fields, end, field, prop,
}
use x_ui_glass.Coerce.{
  Runtime, as_object, as_array, first, as_string_or, as_string, as_bool, as_number, as_port,
  text_or_undefined,
}
use x_ui_glass.OutboundForm.Settings.{
  VmessForm, TrojanForm, ShadowsocksForm, SimpleAuth, HysteriaForm, MuxForm,
}

abbrev pub vmess_securities : List String
vmess_securities = "aes-128-gcm" ∷ "chacha20-poly1305" ∷ "auto" ∷ "none" ∷ "zero" ∷ []

abbrev pub udp443_modes : List String
udp443_modes = "reject" ∷ "allow" ∷ "skip" ∷ []

-- `allowed.includes(s) ? s : fallback`
abbrev pub one_of : List String → String → String → String
one_of allowed s d = if includes allowed s then s else d

module _ {N : Type 0} where
  -- `asObject(asArray(raw[name])[0])`
  abbrev pub first_object : Fields N → String → Fields N
  first_object raw name = as_object (first (as_array (prop raw name)))

  -- `[v]`
  abbrev pub one : Value N → Value N
  one v = arr (cons v nil)

  unfoldable pub vmess_to_wire : VmessForm N → Fields N
  vmess_to_wire s =
      let user : Fields N = field "id" (str s.id) (field "security" (str s.security) end) in
      let server : Fields N =
        field "address" (str s.address)
          (field "port" (num s.port) (field "users" (one (obj user)) end)) in
      field "vnext" (one (obj server)) end

  unfoldable pub trojan_to_wire : TrojanForm N → Fields N
  trojan_to_wire s =
      let server : Fields N =
        field "address" (str s.address)
          (field "port" (num s.port) (field "password" (str s.password) end)) in
      field "servers" (one (obj server)) end

  unfoldable pub shadowsocks_to_wire : ShadowsocksForm N → Fields N
  shadowsocks_to_wire s =
      let server : Fields N = field "address" (str s.address) (
        field "port" (num s.port) (
          field "password" (str s.password) (
            field "method" (str s.method)
              (field "uot" (bool s.uot) (field "UoTVersion" (num s.uot_version) end))))) in
      field "servers" (one (obj server)) end

  unfoldable pub simple_auth_to_wire : SimpleAuth N → Fields N
  simple_auth_to_wire s =
      let user : Fields N = field "user" (str s.user) (field "pass" (str s.pass) end) in
      let users : Value N = if is_empty s.user then arr nil else one (obj user) in
      let server : Fields N =
        field "address" (str s.address) (field "port" (num s.port) (field "users" users end)) in
      field "servers" (one (obj server)) end

  unfoldable pub hysteria_to_wire : HysteriaForm N → Fields N
  hysteria_to_wire s =
      field "address" (str s.address)
        (field "port" (num s.port) (field "version" (num s.version) end))

  unfoldable pub blackhole_from_wire : Fields N → String
  unfolding as_object as_string_or prop
  blackhole_from_wire raw =
      let t = as_string (prop (as_object (prop raw "response")) "type") in
      if str_eq t "none" || str_eq t "http" then t else ""

  unfoldable pub blackhole_to_wire : String → Fields N
  blackhole_to_wire type =
      let response : Value N =
        if is_empty type then undefined else obj (field "type" (str type) end) in
      field "response" response end

  unfoldable pub loopback_from_wire : Fields N → String
  unfolding as_string_or prop
  loopback_from_wire raw = as_string (prop raw "inboundTag")

  unfoldable pub loopback_to_wire : String → Fields N
  loopback_to_wire tag = field "inboundTag" (text_or_undefined tag) end

  -- `result.mux = values.mux`
  unfoldable pub mux_to_wire : MuxForm N → Value N
  mux_to_wire m = obj (
      field "enabled" (bool m.enabled) (
        field "concurrency" (num m.concurrency) (
          field "xudpConcurrency" (num m.xudp_concurrency)
            (field "xudpProxyUDP443" (str m.xudp_proxy_udp443) end))))

module _ {N : Type 0} (rt : Runtime N) where
  open rt use {web}

  unfoldable pub vmess_from_wire : Fields N → VmessForm N
  unfolding as_object as_array as_string_or as_port prop includes
  vmess_from_wire raw =
      let v = first_object raw "vnext" in
      let u = first_object v "users" in
      record {
        address = as_string (prop v "address");
        port = as_port rt (prop v "port") (web.number 443);
        id = as_string (prop u "id");
        security = one_of vmess_securities (as_string (prop u "security")) "auto";
      }

  unfoldable pub trojan_from_wire : Fields N → TrojanForm N
  unfolding as_object as_array as_string_or as_port prop
  trojan_from_wire raw =
      let s = first_object raw "servers" in
      record {
        address = as_string (prop s "address");
        port = as_port rt (prop s "port") (web.number 443);
        password = as_string (prop s "password");
      }

  unfoldable pub shadowsocks_from_wire : Fields N → ShadowsocksForm N
  unfolding as_object as_array as_string_or as_port as_number as_bool prop
  shadowsocks_from_wire raw =
      let s = first_object raw "servers" in
      record {
        address = as_string (prop s "address");
        port = as_port rt (prop s "port") (web.number 443);
        password = as_string (prop s "password");
        method = as_string_or (prop s "method") "2022-blake3-aes-128-gcm";
        uot = as_bool (prop s "uot");
        uot_version = as_number rt (prop s "UoTVersion") (web.number 1);
      }

  unfoldable pub simple_auth_from_wire : Fields N → N → SimpleAuth N
  unfolding as_object as_array as_string_or as_port prop
  simple_auth_from_wire raw default_port =
      let s = first_object raw "servers" in
      let u = first_object s "users" in
      record {
        address = as_string (prop s "address");
        port = as_port rt (prop s "port") default_port;
        user = as_string (prop u "user");
        pass = as_string (prop u "pass");
      }

  unfoldable pub hysteria_from_wire : Fields N → HysteriaForm N
  unfolding as_string_or as_port prop
  hysteria_from_wire raw = record {
    address = as_string (prop raw "address");
    port = as_port rt (prop raw "port") (web.number 443);
    version = web.number 2;
  }

  unfoldable pub mux_from_wire : Value N → MuxForm N
  unfolding as_object as_string_or as_number as_bool prop includes
  mux_from_wire raw =
      let m = as_object raw in
      record {
        enabled = as_bool (prop m "enabled");
        concurrency = as_number rt (prop m "concurrency") (web.number 8);
        xudp_concurrency = as_number rt (prop m "xudpConcurrency") (web.number 16);
        xudp_proxy_udp443 =
            one_of udp443_modes (as_string_or (prop m "xudpProxyUDP443") "reject") "reject";
      }
