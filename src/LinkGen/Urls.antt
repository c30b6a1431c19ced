-- ===== src/LinkGen/Urls.antt =====
-- The links that are URLs: VLESS, Trojan, Shadowsocks, Hysteria and WireGuard.
use x_ui_glass.Shared.{
  ℕ, String, true, not, Option, none, some, List, [], ◌∷◌, ◌++◌, if◌then◌else◌, maybe, is_empty,
  or_else, str_eq, join, first_chars, ◌+++◌, ◌>>=◌, ltb, ◌==◌,
}
use x_ui_glass.Shared.Property.{map_set}
use x_ui_glass.Shared.Numeral.{decimal}
use x_ui_glass.Json.{Value, undefined, str, arr, obj, items, prop}
use x_ui_glass.Platform.{Web, is_text}
use x_ui_glass.Inbound.{
  Transport, network_name, TlsSettings, Security, tls, reality, ForceTls, forced, ExternalProxy,
  StreamSettings, WireguardPeer, WireguardSettings, vless, trojan, shadowsocks, hysteria, Inbound,
}
use x_ui_glass.LinkGen.Query.{
  Params, Target, put, put_nonempty, put_list, final_mask_params, network_params,
  external_proxy_params, tls_params, reality_params,
}

abbrev pub single_user_method : String
single_user_method = "2022-blake3-chacha20-poly1305"

-- `for (const [key, value] of params) url.searchParams.set(key, value)`
unfoldable pub put_all : Params → Params → Params
unfolding map_set
put_all [] params = params
put_all ((k, v) ∷ more) params = put_all more (map_set k v params)

module _ {N : Type 0} where
  -- `v?.[k]`
  abbrev opt_prop : Value N → String → Value N
  opt_prop (obj fs) k = prop fs k
  opt_prop v k = undefined

  -- `masks.find((m) => m?.type === 'salamander')`
  find_salamander : List (Value N) → Value N
  unfolding prop is_text
  find_salamander [] = undefined
  find_salamander (m ∷ ms) =
      if is_text (opt_prop m "type") "salamander" then m else find_salamander ms

  abbrev masks_of : Value N → List (Value N)
  masks_of (arr ms) = items ms
  masks_of v = []

  abbrev text_of_value : Value N → String
  text_of_value (str s) = s
  text_of_value v = ""

  unfoldable pub obfs_params : Option (Value N) → Params → Params
  unfolding find_salamander map_set prop items
  obfs_params mask params =
      let found = find_salamander (masks_of (opt_prop (or_else mask undefined) "udp")) in
      let password = text_of_value (opt_prop (opt_prop found "settings") "password") in
      if is_empty password
      then params
      else map_set "obfs-password" password (map_set "obfs" "salamander" params)

module _ {N : Type 0} (web : Web N) where
  -- `new URL(base)`, its parameters and its hash.
  unfoldable pub link_of : String → Target → Params → Option String
  unfolding put_all decimal
  link_of user_info target params = do
    url ← web.parse_url (user_info +++ "@" +++ target.address +++ ":" +++ decimal target.port)
    some (
        web.print_url (
          web.set_hash (web.encode_component target.remark)
            (record url { params = put_all params url.params })))

  unfoldable pub vless_tls_params : Transport → TlsSettings → String → Params → Params
  unfolding map_set join
  vless_tls_params transport t flow params =
      (let pinned = put_list "pcs" t.pinned_peer_cert_sha256 (
          put_nonempty "ech" t.ech_config_list (
            put_nonempty "sni" t.server_name
              (put "alpn" (join "," t.alpn) (put "fp" t.fingerprint params)))) in
        if str_eq (network_name transport) "tcp" then put_nonempty "flow" flow pinned else pinned)

  -- The test `stream.security === 'tls'` of `genVlessLink`, and its `else` for REALITY.
  unfoldable pub vless_tls_branch : Transport → Security → String → Params → Params
  unfolding vless_tls_params
  vless_tls_branch transport (tls t) flow params = vless_tls_params transport t flow params
  vless_tls_branch transport security flow params = params

  unfoldable pub vless_reality_branch : Transport → Security → String → Params → Params
  unfolding reality_params map_set
  vless_reality_branch transport (reality r) flow params =
      if str_eq (network_name transport) "tcp"
      then put_nonempty "flow" flow (reality_params r params)
      else reality_params r params
  vless_reality_branch transport security flow params = params

  -- The branches of `genVlessLink` on the security that the link has.
  unfoldable pub vless_security_params :
      StreamSettings N → String → String → Option ExternalProxy → Params → Params
  unfolding vless_tls_branch vless_reality_branch external_proxy_params map_set
  vless_security_params stream security flow proxy params =
      if str_eq security "tls"
      then external_proxy_params proxy security
          (vless_tls_branch stream.transport stream.security flow (put "security" "tls" params))
      else if str_eq security "reality"
      then vless_reality_branch stream.transport stream.security flow
          (put "security" "reality" params)
      else put "security" "none" params

  -- All parameters of a VLESS link.
  unfoldable pub vless_params :
      StreamSettings N → String → String → String → Option ExternalProxy → Params
  unfolding network_params final_mask_params vless_security_params map_set
  vless_params stream encryption security flow proxy =
      vless_security_params stream security flow proxy (
        final_mask_params web stream.finalmask (
          network_params web stream.transport
            (put "encryption" encryption (put "type" (network_name stream.transport) []))))

  unfoldable pub gen_vless_link :
      Inbound N → Target → ForceTls → String → String → Option ExternalProxy → Option String
  unfolding vless_params link_of
  gen_vless_link inbound target force client_id flow proxy = elim inbound.protocol [
    | vless encryption clients ↦ maybe inbound.stream (some "") (λ stream.
        link_of ("vless://" +++ client_id) target
          (vless_params stream encryption (forced force stream.security) flow proxy))
    | _ ↦ some ""
  ]

  -- `writeTlsParams` and `writeRealityParams`, which test the security of the stream.
  unfoldable pub tls_branch : Security → Params → Params
  unfolding tls_params
  tls_branch (tls t) params = tls_params t params
  tls_branch security params = params

  unfoldable pub reality_branch : Security → Params → Params
  unfolding reality_params
  reality_branch (reality r) params = reality_params r params
  reality_branch security params = params

  -- The branches on the security of a Trojan link.
  unfoldable pub trojan_security_params : Security → String → Option ExternalProxy → Params → Params
  unfolding tls_branch reality_branch external_proxy_params map_set
  trojan_security_params inbound_security security proxy params =
      if str_eq security "tls"
      then external_proxy_params proxy security
          (tls_branch inbound_security (put "security" "tls" params))
      else if str_eq security "reality"
      then reality_branch inbound_security (put "security" "reality" params)
      else put "security" "none" params

  unfoldable pub trojan_params : StreamSettings N → String → Option ExternalProxy → Params
  unfolding network_params final_mask_params trojan_security_params map_set
  trojan_params stream security proxy = trojan_security_params stream.security security proxy (
      final_mask_params web stream.finalmask
        (network_params web stream.transport (put "type" (network_name stream.transport) [])))

  unfoldable pub gen_trojan_link :
      Inbound N → Target → ForceTls → String → Option ExternalProxy → Option String
  unfolding trojan_params link_of
  gen_trojan_link inbound target force client_password proxy = elim inbound.protocol [
    | trojan clients ↦ maybe inbound.stream (some "") (λ stream.
        link_of ("trojan://" +++ web.encode_component client_password) target
          (trojan_params stream (forced force stream.security) proxy))
    | _ ↦ some ""
  ]

  -- A Shadowsocks link names its security only if it is TLS.
  unfoldable pub shadowsocks_params : StreamSettings N → String → Option ExternalProxy → Params
  unfolding network_params final_mask_params tls_branch external_proxy_params map_set
  shadowsocks_params stream security proxy =
      let start =
        final_mask_params web stream.finalmask
          (network_params web stream.transport (put "type" (network_name stream.transport) [])) in
      if str_eq security "tls"
      then external_proxy_params proxy security
          (tls_branch stream.security (put "security" "tls" start))
      else start

  -- The passwords of a user, by the method: of the server for 2022, of the client for many users.
  unfoldable pub passwords : String → String → String → List String
  unfolding first_chars
  passwords method password client_password =
      (if str_eq (first_chars 4 method) "2022" then password ∷ [] else [])
      ++ (if not (str_eq method single_user_method) then client_password ∷ [] else [])

  unfoldable pub gen_shadowsocks_link :
      Inbound N → Target → ForceTls → String → Option ExternalProxy → Option String
  unfolding shadowsocks_params passwords link_of join
  gen_shadowsocks_link inbound target force client_password proxy = elim inbound.protocol [
    | shadowsocks method password clients ↦ maybe inbound.stream (some "") (λ stream.
        link_of
          ("ss://"
            +++ web.encode_base64
                (method +++ ":" +++ join ":" (passwords method password client_password)) true)
          target (shadowsocks_params stream (forced force stream.security) proxy))
    | _ ↦ some ""
  ]

  hysteria_params : StreamSettings N → TlsSettings → Params
  unfolding obfs_params final_mask_params map_set join
  hysteria_params stream t = final_mask_params web stream.finalmask (
      obfs_params stream.finalmask (
        put_list "pinSHA256" t.pinned_peer_cert_sha256 (
          put_nonempty "sni" t.server_name (
            put_nonempty "ech" t.ech_config_list (
              put_list "alpn" t.alpn
                (put_nonempty "fp" t.fingerprint (put "security" "tls" [])))))))

  abbrev hysteria_stream : String → Target → StreamSettings N → Security → Option String
  hysteria_stream user_info target stream (tls t) =
      link_of user_info target (hysteria_params stream t)
  hysteria_stream user_info target stream security = some ""

  unfoldable pub gen_hysteria_link : Inbound N → Target → String → Option String
  unfolding hysteria_params link_of
  gen_hysteria_link inbound target client_auth = elim inbound.protocol [
    | hysteria version clients ↦ maybe inbound.stream (some "") (λ stream.
        hysteria_stream
          ((if version == 2 then "hysteria2" else "hysteria") +++ "://" +++ client_auth) target
          stream stream.security)
    | _ ↦ some ""
  ]

  public_key : WireguardSettings → String
  public_key settings =
      if is_empty settings.secret_key then "" else web.public_key_of settings.secret_key

  abbrev first_ip : WireguardPeer → String
  first_ip peer = elim peer.allowed_ips [ [] ↦ "" | ip ∷ ips ↦ ip ]

  abbrev mtu_params : Option ℕ → Params → Params
  mtu_params none params = params
  mtu_params (some mtu) params = if ltb 0 mtu then put "mtu" (decimal mtu) params else params

  unfoldable pub gen_wireguard_link :
      WireguardSettings → Target → Option WireguardPeer → Option String
  unfolding public_key decimal map_set
  gen_wireguard_link settings target none = some ""
  gen_wireguard_link settings target (some peer) = do
    url ← web.parse_url ("wireguard://" +++ target.address +++ ":" +++ decimal target.port)
    let named = web.set_username (or_else peer.private_key "") url
    let params = mtu_params settings.mtu (
        put_nonempty "address" (first_ip peer)
          (put_nonempty "publickey" (public_key settings) named.params))
    some (
        web.print_url
          (web.set_hash (web.encode_component target.remark) (record named { params = params })))

  abbrev line_if : String → Option ℕ → String → String
  line_if before none after_it = ""
  line_if before (some n) after_it = if ltb 0 n then before +++ decimal n +++ after_it else ""

  -- The `.conf` text of a peer.
  unfoldable pub gen_wireguard_config : WireguardSettings → Target → Option WireguardPeer → String
  unfolding public_key decimal
  gen_wireguard_config settings target none = ""
  gen_wireguard_config settings target (some peer) =
      let shared = or_else peer.pre_shared_key "" in
      "[Interface]\n"
      +++ "PrivateKey = "
      +++ or_else peer.private_key ""
      +++ "\n"
      +++ "Address = "
      +++ first_ip peer
      +++ "\n"
      +++ "DNS = 1.1.1.1, 1.0.0.1\n"
      +++ line_if "MTU = " settings.mtu "\n"
      +++ "\n# "
      +++ target.remark
      +++ "\n"
      +++ "[Peer]\n"
      +++ "PublicKey = "
      +++ public_key settings
      +++ "\n"
      +++ "AllowedIPs = 0.0.0.0/0, ::/0\n"
      +++ "Endpoint = "
      +++ target.address
      +++ ":"
      +++ decimal target.port
      +++ (if is_empty shared then "" else "\nPresharedKey = " +++ shared)
      +++ line_if "\nPersistentKeepalive = " peer.keep_alive "\n"
