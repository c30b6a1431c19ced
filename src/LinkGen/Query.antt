-- ===== src/LinkGen/Query.antt =====
-- The query parameters and the JSON fields that an inbound's stream puts into a share link.
use x_ui_glass.Shared.{
  ℕ, String, Bool, true, false, not, ◌||◌, Option, none, some, List, [], ◌∷◌, if◌then◌else◌, maybe,
  is_empty, or_else, or_text, split, keep, str_eq, join, to_lower,
}
use x_ui_glass.Shared.Property.{lookup, map_set, assign}
use x_ui_glass.Shared.Numeral.{decimal}
use x_ui_glass.Headers.{HeaderMap, one, get_header_value}
use x_ui_glass.Json.{
  Value, undefined, null, bool, num, str, arr, obj, Items, nil, cons, Fields, end, field, with_prop,
  of_entries,
}
use x_ui_glass.Platform.{Web}
use x_ui_glass.Inbound.{
  TcpRequest, http, WsSettings, XhttpSettings, Transport, tcp, kcp, ws, httpupgrade, grpc, xhttp,
  TlsSettings, RealitySettings, ExternalProxy,
}

abbrev pub Params : Type 0
Params = List (String × String)

-- `params.set(k, v)`
abbrev pub put : String → String → Params → Params
put = map_set

-- `if (s.length > 0) params.set(k, s)`
abbrev pub put_nonempty : String → String → Params → Params
put_nonempty k s params = if is_empty s then params else map_set k s params

abbrev pub put_list : String → List String → Params → Params
put_list k [] params = params
put_list k (x ∷ xs) params = map_set k (join "," (x ∷ xs)) params

one_values : List (String × String) → HeaderMap
one_values [] = []
one_values ((k, v) ∷ m) = (k, one v) ∷ one_values m

unfoldable pub xhttp_host_fallback : XhttpSettings → String
unfolding one_values get_header_value
xhttp_host_fallback x = get_header_value (maybe x.headers none (λ m. some (one_values m))) "host"

-- `host.length > 0 ? host : getHeaderValue(headers, 'host')`
unfoldable pub ws_host : WsSettings → String
unfolding get_header_value
ws_host w = or_text w.host (get_header_value (some w.headers) "host")

-- The host of the response, or else of the request.
unfoldable pub tcp_host : TcpRequest → Option HeaderMap → String
unfolding get_header_value
tcp_host request response =
    or_text (get_header_value response "host") (get_header_value (some request.headers) "host")

module _ {N : Type 0} where
  -- `if (typeof v === 'string' && v.length > 0) extra[k] = v`
  copy_texts : List (String × String) → List String → Fields N → Fields N
  copy_texts given [] extra = extra
  copy_texts given (k ∷ ks) extra =
      (let v = or_else (lookup k given) "" in
        copy_texts given ks (if is_empty v then extra else with_prop k (str v) extra))

  without_host : List (String × String) → List (String × Value N) → List (String × Value N)
  without_host [] out = out
  without_host ((name, value) ∷ m) out =
      without_host m (if str_eq (to_lower name) "host" then out else assign name (str value) out)

  abbrev attach_headers : List (String × Value N) → Fields N → Fields N
  attach_headers [] extra = extra
  attach_headers (h ∷ hs) extra = with_prop "headers" (obj (of_entries (h ∷ hs))) extra

  abbrev or_null : Fields N → Option (Fields N)
  or_null end = none
  or_null (field k v fs) = some (field k v fs)

  unfoldable pub build_xhttp_extra : XhttpSettings → Option (Fields N)
  unfolding copy_texts without_host with_prop of_entries lookup assign to_lower
  build_xhttp_extra x =
      let padded =
        if is_empty x.x_padding_bytes
        then end
        else with_prop "xPaddingBytes" (str x.x_padding_bytes) end in
      let obfuscated =
        if x.x_padding_obfs_mode
        then copy_texts x.texts
            ("xPaddingKey" ∷ "xPaddingHeader" ∷ "xPaddingPlacement" ∷ "xPaddingMethod" ∷ [])
            (with_prop "xPaddingObfsMode" (bool true) padded)
        else padded in
      let copied =
        copy_texts x.texts
          ("uplinkHTTPMethod" ∷ "sessionPlacement" ∷ "sessionKey" ∷ "seqPlacement" ∷ "seqKey"
            ∷ "uplinkDataPlacement" ∷ "uplinkDataKey" ∷ "scMaxEachPostBytes" ∷ [])
          obfuscated in
      or_null (maybe x.headers copied (λ m. attach_headers (without_host m []) copied))

-- Whether a mask has any content: an empty text, list or object has none.
unfoldable mutual
  pub is_shareable : {N : Type 0} → Value N → Bool
  is_shareable undefined = false
  is_shareable null = false
  is_shareable (bool b) = true
  is_shareable (num n) = true
  is_shareable (str s) = not (is_empty s)
  is_shareable (arr vs) = some_items vs
  is_shareable (obj fs) = some_fields fs

  pub some_items : {N : Type 0} → Items N → Bool
  some_items nil = false
  some_items (cons v vs) = is_shareable v || some_items vs

  pub some_fields : {N : Type 0} → Fields N → Bool
  some_fields end = false
  some_fields (field k v fs) = is_shareable v || some_fields fs

module _ {N : Type 0} (web : Web N) where
  unfoldable pub serialize_final_mask : Option (Value N) → String
  unfolding is_shareable
  serialize_final_mask none = ""
  serialize_final_mask (some mask) = if is_shareable mask then web.stringify mask else ""

  unfoldable pub final_mask_params : Option (Value N) → Params → Params
  unfolding serialize_final_mask map_set
  final_mask_params mask params = put_nonempty "fm" (serialize_final_mask mask) params

  unfoldable pub xhttp_extra_params : XhttpSettings → Params → Params
  unfolding build_xhttp_extra xhttp_host_fallback map_set
  xhttp_extra_params x params =
      let placed =
        put "mode" x.mode
          (put "host" (or_text x.host (xhttp_host_fallback x)) (put "path" x.path params)) in
      let padded = put_nonempty "x_padding_bytes" x.x_padding_bytes placed in
      maybe (build_xhttp_extra x) padded (λ extra. put "extra" (web.stringify (obj extra)) padded)

  -- `writeNetworkParams`, which `genVlessLink` spells out too.
  unfoldable pub network_params : Transport → Params → Params
  unfolding xhttp_extra_params ws_host tcp_host map_set join decimal
  network_params (tcp (some (http (some request) response))) params =
      put "headerType" "http" (
        put_nonempty "host" (tcp_host request response) (put "path" (join "," request.path) params))
  network_params (kcp k) params = put "tti" (decimal k.tti) (put "mtu" (decimal k.mtu) params)
  network_params (ws w) params = put "host" (ws_host w) (put "path" w.path params)
  network_params (grpc g) params =
      let named = put "authority" g.authority (put "serviceName" g.service_name params) in
      if g.multi_mode then put "mode" "multi" named else named
  network_params (httpupgrade w) params = put "host" (ws_host w) (put "path" w.path params)
  network_params (xhttp x) params = xhttp_extra_params x params
  network_params _ params = params

-- `externalProxyAlpn`
abbrev pub proxy_alpn : Option (List String) → String
proxy_alpn none = ""
proxy_alpn (some alpn) = join "," (keep (λ a. not (is_empty a)) alpn)

-- `sni && sni.length > 0 ? sni : dest`
abbrev pub proxy_sni : ExternalProxy → String
proxy_sni p = or_text (or_else p.sni "") p.dest

unfoldable pub external_proxy_params : Option ExternalProxy → String → Params → Params
unfolding map_set join keep
external_proxy_params none security params = params
external_proxy_params (some p) security params =
    if str_eq security "tls"
    then put_nonempty "alpn" (proxy_alpn p.alpn)
        (put_nonempty "fp" (or_else p.fingerprint "") (put_nonempty "sni" (proxy_sni p) params))
    else params

-- `writeTlsParams`, behind its test of the security
unfoldable pub tls_params : TlsSettings → Params → Params
unfolding map_set join
tls_params t params = put_list "pcs" t.pinned_peer_cert_sha256 (
    put_nonempty "sni" t.server_name (
      put_nonempty "ech" t.ech_config_list
        (put "alpn" (join "," t.alpn) (put "fp" t.fingerprint params))))

abbrev first : List String → String
first [] = ""
first (x ∷ xs) = x

-- `settings.serverName || serverNames?.[0] || target?.split(':')[0]`
unfoldable pub reality_sni : RealitySettings → String
unfolding split
reality_sni r =
    or_text (or_text r.server_name (first (or_else r.server_names [])))
      (maybe r.target "" (λ t. first (split b':' t)))

abbrev pub put_first : String → List String → Params → Params
put_first k [] params = params
put_first k (x ∷ xs) params = map_set k x params

-- `writeRealityParams`, behind its test of the security
unfoldable pub reality_params : RealitySettings → Params → Params
unfolding map_set reality_sni
reality_params r params = put_nonempty "pqv" r.mldsa65_verify (
    put_nonempty "spx" r.spider_x (
      put_first "sid" r.short_ids (
        put_nonempty "sni" (reality_sni r)
          (put "fp" r.fingerprint (put "pbk" r.public_key params)))))

-- Where a link points: the address and port of the server, and the name of the link.
pub record Target : Type 0 where
  pub address : String
  pub port : ℕ
  pub remark : String
