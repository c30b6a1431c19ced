-- ===== src/LinkParser/Tests.antt =====
-- Links parsed on a small platform, whose URLs and encodings are tables.
use x_ui_glass.Shared.{
  ℕ, String, ◌≡◌, refl, true, false, none, some, [], ◌∷◌, if◌then◌else◌, str_eq, not, ◌==◌, ◌↔◌,
  sym, ap, ◌∙◌, eq_iff, Bool-cases, inl, inr, is_some, after, trim, ◌+++◌,
}
use x_ui_glass.Json.{Value, num, str, arr, obj, nil, cons, end, field, prop}
use x_ui_glass.Platform.{Web, Url, get_or}
use x_ui_glass.LinkParser.{
  parse_vmess_link, parse_vless_link, parse_shadowsocks_link, parse_outbound_link, stream_of_params,
}
use x_ui_glass.LinkParser.Accepted.{Scheme, vless, HasProtocol, parser}
use x_ui_glass.LinkParser.Schemes.{
  SchemeLaws, parser-one, parse_outbound_link_iff, parse_outbound_link-HasProtocol,
}
use x_ui_glass.LinkParser.Shadowsocks.{lacks, server_of, with_name, parse_shadowsocks_link_shapes}
use x_ui_glass.LinkParser.Kept.{prop-stream_of_params}

abbrev digits : Value ℕ → ℕ
digits (str s) = if str_eq s "8443" then 8443 else 0
digits (num n) = n
digits _ = 0

abbrev url : Url
url = record {
  protocol = "vless:";
  username = "id-1";
  hostname = "example.com";
  port = "8443";
  params =
      ("type", "ws") ∷ ("path", "/a") ∷ ("security", "tls") ∷ ("sni", "s") ∷ ("alpn", "h2,h3") ∷ [];
  hash = "#name";
}

abbrev web : Web ℕ
web = record {
  number = λ n. n;
  number_of = digits;
  number_text = λ n. "8443";
  is_nonzero = λ n. not (n == 0);
  is_positive = λ n. not (n == 0);
  is_finite = λ n. true;
  parse_json = λ s. none;
  stringify = λ v. "";
  stringify_indented = λ v. "";
  parse_url = λ s. if str_eq s "vless://link" then some url else none;
  print_url = λ u. "vless://link";
  set_username = λ s u. record u { username = s };
  set_hash = λ s u. record u { hash = s };
  encode_component = λ s. s;
  decode_component = λ s. some s;
  encode_base64 = λ s b. s;
  decode_base64 = λ s.
      if str_eq s "bTpw"
      then some "m:p"
      else if str_eq s "bTpwQGg6ODQ0Mw"
      then some "m:p@h:8443"
      else none;
  public_key_of = λ s. s;
}

abbrev parsed : Value ℕ
parsed =
    (obj (
      field "protocol" (str "vless") (
        field "tag" (str "name") (
          field "settings"
            (obj (
              field "address" (str "example.com") (
                field "port" (num 8443) (
                  field "id" (str "id-1")
                    (field "flow" (str "") (field "encryption" (str "none") end))))))
            (field "streamSettings"
              (obj (
                field "network" (str "ws") (
                  field "security" (str "tls") (
                    field "wsSettings"
                      (obj (
                        field "path" (str "/a") (
                          field "host" (str "")
                            (field "headers" (obj end) (field "heartbeatPeriod" (num 0) end)))))
                      (field "tlsSettings"
                        (obj (
                          field "serverName" (str "s") (
                            field "alpn" (arr (cons (str "h2") (cons (str "h3") nil))) (
                              field "fingerprint" (str "") (
                                field "echConfigList" (str "") (
                                  field "verifyPeerCertByName" (str "")
                                    (field "pinnedPeerCertSha256" (str "") end)))))))
                        end)))))
              end)))))

vless_runs : parse_outbound_link web " vless://link " ≡ some parsed
unfolding parse_outbound_link parse_vmess_link parse_vless_link
vless_runs = refl

shadowsocks_both :
    parse_shadowsocks_link web "ss://bTpw@h:8443?x=1#r"
    ≡ parse_shadowsocks_link web "ss://bTpwQGg6ODQ0Mw#r"
unfolding parse_shadowsocks_link
shadowsocks_both = refl

no_url : (link : String) → str_eq link "vless://link" ≡ false → web.parse_url link ≡ none
no_url link k = rw k refl

only_link : (link : String) (u : Url) → web.parse_url link ≡ some u → link ≡ "vless://link"
only_link link u e = elim (Bool-cases (str_eq link "vless://link")) [
  | inl k ↦ (eq_iff link "vless://link").0 k
  | inr k ↦ cc (sym (no_url link k) ∙ e)
]

vless_not_vmess : is_some (after "vmess://" "vless://link") ≡ false
unfolding after
vless_not_vmess = refl

vless_not_ss : is_some (after "ss://" "vless://link") ≡ false
unfolding after
vless_not_ss = refl

laws : SchemeLaws web
laws = record {
  empty = refl;
  vmess_url = λ link u p e.
      cc (sym p ∙ ap (λ l. is_some (after "vmess://" l)) (only_link link u e) ∙ vless_not_vmess);
  ss_url = λ link u p e.
      cc (sym p ∙ ap (λ l. is_some (after "ss://" l)) (only_link link u e) ∙ vless_not_ss);
}

link_parsed : parse_vless_link web "vless://link" ≡ some parsed
unfolding parse_vless_link
link_parsed = refl

parser-one_example : vless ≡ vless
parser-one_example =
    parser-one web vless vless "vless://link" parsed parsed laws link_parsed link_parsed

parse_outbound_link_iff_example :
    (parse_outbound_link web " vless://link " ≡ some parsed)
    ↔ ((a : Scheme) × (parser web a (trim " vless://link ") ≡ some parsed))
parse_outbound_link_iff_example = parse_outbound_link_iff web " vless://link " parsed laws

parse_outbound_link-HasProtocol_example :
    (a : Scheme) × (parser web a (trim " vless://link ") ≡ some parsed) × HasProtocol a parsed
parse_outbound_link-HasProtocol_example =
    parse_outbound_link-HasProtocol web " vless://link " parsed vless_runs

parse_shadowsocks_link_shapes_example :
    (parse_shadowsocks_link web (with_name web ("bTpw" +++ "@" +++ "h" +++ ":" +++ "8443") "r")
      ≡ some (server_of web "r" "m" "p" "h" "8443"))
    × (parse_shadowsocks_link web (with_name web "bTpwQGg6ODQ0Mw" "r")
        ≡ some (server_of web "r" "m" "p" "h" "8443"))
unfolding lacks
parse_shadowsocks_link_shapes_example =
    parse_shadowsocks_link_shapes web "m" "p" "h" "8443" "r" "r" "bTpw" "bTpwQGg6ODQ0Mw" refl refl
      refl refl refl refl (refl, refl, refl) (refl, refl, refl) refl refl

prop-stream_of_params_example :
    (prop (stream_of_params web url.params "none") "network" ≡ str (get_or "type" url.params "tcp"))
    × (prop (stream_of_params web url.params "none") "security"
        ≡ str (get_or "security" url.params "none"))
prop-stream_of_params_example = prop-stream_of_params web url.params "none"
