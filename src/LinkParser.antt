-- ===== src/LinkParser.antt =====
-- frontend/src/lib/xray/outbound-link-parser.ts: share links to outbound records. `Stream` has the
-- stream settings, `Base` what the parsers share, `Vmess` and `Ss` the two whose links are no URLs,
-- this file the others and the dispatcher; `null` and what a parser catches is `none`.
mod Stream
mod Base
mod Vmess
mod Ss
mod Tests
pub mod Kept
pub mod Accepted
pub mod Schemes
pub mod Shadowsocks
use Prim.Native.Char.{code}
use x_ui_glass.Shared.{
  String, Bool, true, false, not, ◌||◌, ◌&&◌, Option, none, some, List, [], ◌∷◌, if◌then◌else◌,
  maybe, is_empty, or_else, split, keep, str_eq, ◌==◌, ◌+++◌, map, ◌>>=◌, trim, after, cut,
  cut_last,
}
use x_ui_glass.Shared.Property.{lookup}
use x_ui_glass.Json.{
  Value, undefined, bool, num, str, arr, obj, Items, nil, cons, Fields, end, field, prop, with_prop,
  texts, of_items,
}
use x_ui_glass.Platform.{
  Web, Url, get, get_or, nonempty, is_text, nullish, properties, is_truthy, number_or,
}
unfoldable pub use Stream.*
unfoldable pub use Base.*
unfoldable pub use Vmess.*
unfoldable pub use Ss.*

module _ {N : Type 0} (web : Web N) where
  unfoldable pub parse_vless_link : String → Option (Value N)
  unfolding parse_url_link decode_remark stream_of_params number_or lookup
  parse_vless_link link = do
    url ← parse_url_link web link "vless"
    let settings : Value N = obj (
        field "address" (str url.hostname) (
          field "port" (port_of web url) (
            field "id" (str url.username) (
              field "flow" (str (get_or "flow" url.params ""))
                (field "encryption" (str (get_or "encryption" url.params "none")) end)))))
    some (
        outbound web "vless" (decode_remark web url) settings
          (stream_of_params web url.params "none"))

  unfoldable pub parse_trojan_link : String → Option (Value N)
  unfolding parse_url_link decode_remark stream_of_params number_or
  parse_trojan_link link = do
    url ← parse_url_link web link "trojan"
    let server : Value N = obj (
        field "address" (str url.hostname)
          (field "port" (port_of web url) (field "password" (str url.username) end)))
    some (
        outbound web "trojan" (decode_remark web url)
          (obj (field "servers" (arr (cons server nil)) end))
          (stream_of_params web url.params "tls"))

  unfoldable pub parse_hysteria2_link : String → Option (Value N)
  unfolding parse_url_link decode_remark apply_final_mask_param number_or lookup texts split
  parse_hysteria2_link link = do
    url ← or_try (parse_url_link web link "hysteria2") (parse_url_link web link "hy2")
    let alpn = maybe (nonempty (get "alpn" url.params)) ("h3" ∷ []) (split b',')
    let stream : Fields N = field "network" (str "hysteria") (
        field "security" (str "tls") (
          field "hysteriaSettings"
            (obj (
              field "version" (num (web.number 2)) (
                field "auth" (str url.username)
                  (field "udpIdleTimeout" (num (web.number 60)) end))))
            (field "tlsSettings"
              (obj (
                field "serverName" (str (get_or "sni" url.params "")) (
                  field "alpn" (arr (texts alpn)) (
                    field "fingerprint" (str (get_or "fp" url.params "")) (
                      field "echConfigList" (str (get_or "ech" url.params "")) (
                        field "verifyPeerCertByName" (str "") (
                          field "pinnedPeerCertSha256" (str (get_or "pinSHA256" url.params ""))
                            end)))))))
              end)))
    let settings : Value N = obj (
        field "address" (str url.hostname)
          (field "port" (port_of web url) (field "version" (num (web.number 2)) end)))
    some (
        outbound web "hysteria" (decode_remark web url) settings
          (apply_final_mask_param web stream url.params))

  -- `const n = Number(s); if (Number.isFinite(n)) o[k] = n`
  abbrev finite_prop : String → Option String → Fields N → Fields N
  finite_prop k none fs = fs
  finite_prop k (some s) fs =
      let n = web.number_of (str s) in if web.is_finite n then with_prop k (num n) fs else fs

  abbrev reserved_numbers : String → List N
  reserved_numbers s =
      keep web.is_finite (map (λ part. web.number_of (str (trim part))) (split b',' s))

  abbrev reserved_prop : List N → Fields N → Fields N
  reserved_prop [] fs = fs
  reserved_prop (r ∷ rs) fs = with_prop "reserved" (arr (of_items (map (λ x. num x) (r ∷ rs)))) fs

  unfoldable pub wireguard_peer : Url → Value N
  unfolding first_param with_prop texts keep split trim
  wireguard_peer url =
      let endpoint =
        if is_empty url.hostname
        then ""
        else if is_empty url.port
        then url.hostname
        else url.hostname +++ ":" +++ url.port in
      let allowed =
        maybe (first_param url.params ("allowedips" ∷ "allowed_ips" ∷ []))
          ("0.0.0.0/0" ∷ "::/0" ∷ []) trimmed_parts in
      let public_key =
        or_else
          (first_param url.params ("publickey" ∷ "publicKey" ∷ "public_key" ∷ "peerPublicKey" ∷ []))
          "" in
      let peer =
        field "publicKey" (str public_key)
          (field "endpoint" (str endpoint) (field "allowedIPs" (arr (texts allowed)) end)) in
      let keyed =
        maybe
          (first_param url.params
            ("presharedkey" ∷ "preshared_key" ∷ "pre-shared-key" ∷ "psk" ∷ []))
          peer (λ psk. with_prop "preSharedKey" (str psk) peer) in
      obj (
        finite_prop "keepAlive"
          (first_param url.params
            ("keepalive" ∷ "persistentkeepalive" ∷ "persistent_keepalive" ∷ []))
          keyed)

  unfoldable pub parse_wireguard_link : String → Option (Value N)
  unfolding parse_url_link decode_remark wireguard_peer first_param with_prop texts keep split trim
      of_items
  parse_wireguard_link link = do
    url ← or_try (parse_url_link web link "wireguard") (parse_url_link web link "wg")
    let secret_key = or_else (web.decode_component url.username) url.username
    let address = trimmed_parts (or_else (first_param url.params ("address" ∷ "ip" ∷ [])) "")
    let settings = field "secretKey" (str secret_key) (
        field "address" (arr (texts address))
          (field "peers" (arr (cons (wireguard_peer url) nil)) end))
    let sized = finite_prop "mtu" (first_param url.params ("mtu" ∷ [])) settings
    let reserved =
        reserved_prop (maybe (first_param url.params ("reserved" ∷ [])) [] reserved_numbers) sized
    some (plain_outbound web "wireguard" (decode_remark web url) (obj reserved))

  -- The first result of the six parsers.
  unfoldable pub first_accepted : String → Option (Value N)
  first_accepted link = or_try (parse_vmess_link web link) (
      or_try (parse_vless_link link) (
        or_try (parse_trojan_link link) (
          or_try (parse_shadowsocks_link web link)
            (or_try (parse_hysteria2_link link) (parse_wireguard_link link)))))

  unfoldable pub parse_outbound_link : String → Option (Value N)
  unfolding trim first_accepted
  parse_outbound_link link =
      let trimmed = trim link in if is_empty trimmed then none else first_accepted trimmed
