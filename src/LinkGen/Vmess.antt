-- ===== src/LinkGen/Vmess.antt =====
-- `genVmessLink`: the JSON object of a VMess link.
use x_ui_glass.Shared.{
  ℕ, String, false, Option, none, some, List, [], ◌∷◌, if◌then◌else◌, maybe, is_empty, or_else,
  or_text, keep, str_eq, join, ◌+++◌,
}
use x_ui_glass.Json.{Value, undefined, num, str, obj, Fields, end, field, with_prop, entries}
use x_ui_glass.Platform.{Web}
use x_ui_glass.Inbound.{
  TcpHeader, plain, http, XhttpSettings, Transport, tcp, kcp, ws, httpupgrade, grpc, xhttp,
  hysteria_transport, network_name, TlsSettings, Security, tls, ForceTls, forced, ExternalProxy,
  StreamSettings, vmess, Inbound,
}
use x_ui_glass.LinkGen.Query.{
  Target, ws_host, tcp_host, xhttp_host_fallback, build_xhttp_extra, serialize_final_mask,
  proxy_alpn, proxy_sni,
}

module _ {N : Type 0} where
  -- `if (s.length > 0) obj[k] = s`
  abbrev set_nonempty : String → String → Fields N → Fields N
  set_nonempty k s fs = if is_empty s then fs else with_prop k (str s) fs

  abbrev set_list : String → List String → Fields N → Fields N
  set_list k [] fs = fs
  set_list k (x ∷ xs) fs = with_prop k (str (join "," (x ∷ xs))) fs

  -- `for (const [k, v] of Object.entries(extra)) obj[k] = v`
  set_all : List (String × Value N) → Fields N → Fields N
  unfolding with_prop
  set_all [] fs = fs
  set_all ((k, v) ∷ m) fs = set_all m (with_prop k v fs)

  -- `applyXhttpExtraToObj`
  unfoldable pub xhttp_extra_fields : XhttpSettings → Fields N → Fields N
  unfolding set_all build_xhttp_extra entries with_prop
  xhttp_extra_fields x fs =
      let padded = set_nonempty "x_padding_bytes" x.x_padding_bytes fs in
      maybe (build_xhttp_extra x) padded (λ extra. set_all (entries extra) padded)

  unfoldable pub external_proxy_fields : Option ExternalProxy → String → Fields N → Fields N
  unfolding with_prop join keep
  external_proxy_fields none security fs = fs
  external_proxy_fields (some p) security fs =
      if str_eq security "tls"
      then set_nonempty "alpn" (proxy_alpn p.alpn)
          (set_nonempty "fp" (or_else p.fingerprint "") (set_nonempty "sni" (proxy_sni p) fs))
      else fs

  vmess_tls_fields : TlsSettings → Fields N → Fields N
  unfolding with_prop join
  vmess_tls_fields t fs = set_list "pcs" t.pinned_peer_cert_sha256 (
      set_list "alpn" t.alpn
        (set_nonempty "fp" t.fingerprint (set_nonempty "sni" t.server_name fs)))

  -- `if (tls === 'tls' && stream.security === 'tls')`
  abbrev vmess_tls : String → Security → Fields N → Fields N
  vmess_tls forced_name (tls t) fs = if str_eq forced_name "tls" then vmess_tls_fields t fs else fs
  vmess_tls forced_name security fs = fs

module _ {N : Type 0} (web : Web N) where
  abbrev number_value : ℕ → Value N
  number_value n = num (web.number n)

  abbrev tcp_fields : TcpHeader → Fields N → Fields N
  tcp_fields plain fs = with_prop "type" (str "none") fs
  tcp_fields (http none response) fs = with_prop "type" (str "http") fs
  tcp_fields (http (some request) response) fs =
      set_nonempty "host" (tcp_host request response)
        (with_prop "path" (str (join "," request.path)) (with_prop "type" (str "http") fs))

  -- The branches of `genVmessLink` on the network.
  unfoldable pub vmess_network_fields : Transport → Fields N → Fields N
  unfolding with_prop join tcp_host ws_host xhttp_host_fallback xhttp_extra_fields
  vmess_network_fields (tcp none) fs = with_prop "type" (str "none") fs
  vmess_network_fields (tcp (some header)) fs = tcp_fields header fs
  vmess_network_fields (kcp k) fs =
      with_prop "tti" (number_value k.tti) (with_prop "mtu" (number_value k.mtu) fs)
  vmess_network_fields (ws w) fs =
      with_prop "host" (str (ws_host w)) (with_prop "path" (str w.path) fs)
  vmess_network_fields (grpc g) fs =
      (let named =
          with_prop "authority" (str g.authority) (with_prop "path" (str g.service_name) fs) in
        if g.multi_mode then with_prop "type" (str "multi") named else named)
  vmess_network_fields (httpupgrade w) fs =
      with_prop "host" (str (ws_host w)) (with_prop "path" (str w.path) fs)
  vmess_network_fields (xhttp x) fs = xhttp_extra_fields x (
      with_prop "type" (str x.mode) (
        with_prop "host" (str (or_text x.host (xhttp_host_fallback x)))
          (with_prop "path" (str x.path) fs)))
  vmess_network_fields hysteria_transport fs = fs

  abbrev opt_text : Option String → Value N
  opt_text none = undefined
  opt_text (some s) = str s

  -- The JSON object of a VMess link.
  unfoldable pub vmess_object :
      StreamSettings N → Target → String → Option String → String → Option ExternalProxy → Fields N
  unfolding vmess_network_fields vmess_tls_fields external_proxy_fields serialize_final_mask
      with_prop
  vmess_object stream target tls_name security client_id proxy =
      let start = field "v" (str "2") (
        field "ps" (str target.remark) (
          field "add" (str target.address) (
            field "port" (number_value target.port) (
              field "id" (str client_id) (
                field "scy" (opt_text security) (
                  field "net" (str (network_name stream.transport))
                    (field "tls" (str tls_name) end))))))) in
      external_proxy_fields proxy tls_name (
        vmess_tls tls_name stream.security (
          set_nonempty "fm" (serialize_final_mask web stream.finalmask)
            (vmess_network_fields stream.transport start)))

  unfoldable pub gen_vmess_link :
      Inbound N → Target → ForceTls → String → Option String → Option ExternalProxy → Option String
  unfolding vmess_object
  gen_vmess_link inbound target force client_id security proxy = elim inbound.protocol [
    | vmess clients ↦ some (
        maybe inbound.stream "" (λ stream.
          "vmess://"
          +++ web.encode_base64
              (web.stringify_indented (
                obj (
                  vmess_object stream target (forced force stream.security) security client_id
                    proxy)))
              false))
    | _ ↦ some ""
  ]
