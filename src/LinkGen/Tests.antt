-- ===== src/LinkGen/Tests.antt =====
-- Links generated on a small platform that reads one base URL and one link of each scheme.
use x_ui_glass.Shared.{
  ◌*◌, length, ℕ, after, ◌≡◌, refl, true, String, none, some, List, [], ◌∷◌, ◌+++◌, map,
  if◌then◌else◌, str_eq, not, ◌==◌,
}
use x_ui_glass.Shared.Numeral.{decimal}
use x_ui_glass.Json.{str, prop}
use x_ui_glass.Platform.{Web, Url, get_or}
use x_ui_glass.Inbound.{
  tcp, ws, plain_security, tls, same, StreamSettings, ClientShape, vless, trojan, Inbound,
}
use x_ui_glass.LinkParser.{parse_vless_link, parse_trojan_link, stream_of_params}
use x_ui_glass.LinkGen.{
  Target, Naming, LinkEntry, vless_params, trojan_params, gen_vless_link, gen_trojan_link,
  gen_all_links, client_links, compose_remark, proxies_of,
}
use x_ui_glass.LinkGen.VlessParams.{prop-vless_params}
use x_ui_glass.LinkGen.RoundTrip.{UrlLaws, vless_of, parse_vless_link-gen_vless_link}
use x_ui_glass.LinkGen.Trojan.{trojan_of, parse_trojan_link-gen_trojan_link}
use x_ui_glass.LinkGen.FanOut.{
  expected_remarks, gen_all_links-remarks, links_per_client, length-client_links,
}

abbrev url : String → String → List (String × String) → String → Url
url protocol user params hash = record {
  protocol = protocol;
  username = user;
  hostname = "h";
  port = "8443";
  params = params;
  hash = hash;
}

abbrev vless_query : List (String × String)
vless_query = ("type", "tcp") ∷ ("encryption", "none") ∷ ("security", "none") ∷ []

abbrev trojan_query : List (String × String)
trojan_query = ("type", "tcp") ∷ ("security", "none") ∷ []

-- The password `a/b` is encoded to `a%2Fb`.
abbrev web : Web ℕ
web = record {
  number = λ n. n;
  number_of = λ v. 8443;
  number_text = λ n. "8443";
  is_nonzero = λ n. not (n == 0);
  is_positive = λ n. not (n == 0);
  is_finite = λ n. true;
  parse_json = λ s. none;
  stringify = λ v. "";
  stringify_indented = λ v. "";
  parse_url = λ s.
      if str_eq s "vless://id@h:8443"
      then some (url "vless:" "id" [] "")
      else if str_eq s "vless"
      then some (url "vless:" "id" vless_query "#n")
      else if str_eq s "trojan://a%2Fb@h:8443"
      then some (url "trojan:" "a%2Fb" [] "")
      else if str_eq s "trojan"
      then some (url "trojan:" "a%2Fb" trojan_query "#n")
      else none;
  print_url = λ u. if str_eq u.protocol "vless:" then "vless" else "trojan";
  set_username = λ s u. record u { username = s };
  set_hash = λ s u. record u { hash = "#" +++ s };
  encode_component = λ s. if str_eq s "a/b" then "a%2Fb" else s;
  decode_component = λ s. some s;
  encode_base64 = λ s b. s;
  decode_base64 = λ s. none;
  public_key_of = λ s. s;
}

abbrev plain_stream : StreamSettings ℕ
plain_stream = record {
  transport = tcp none;
  security = plain_security;
  external_proxy = [];
  finalmask = none;
}

abbrev vless_inbound : Inbound ℕ
vless_inbound = record {
  protocol = vless "none" none;
  listen = "";
  port = 8443;
  stream = some plain_stream;
}

abbrev trojan_inbound : Inbound ℕ
trojan_inbound = record {
  protocol = trojan none;
  listen = "";
  port = 8443;
  stream = some plain_stream;
}

abbrev target : Target
target = record { address = "h"; port = 8443; remark = "n" }

vless_laws :
    UrlLaws web "vless://" "vless:" "id" target
      (vless_params web plain_stream "none" "none" "" none)
unfolding vless_params decimal after
vless_laws = record { reads_base = refl; sets_hash = refl; reads_back = refl; decodes_hash = refl }

trojan_laws :
    UrlLaws web "trojan://" "trojan:" "a%2Fb" target (trojan_params web plain_stream "none" none)
unfolding trojan_params decimal after
trojan_laws = record { reads_base = refl; sets_hash = refl; reads_back = refl; decodes_hash = refl }

parse_vless_link-gen_vless_link_example :
    (link : String) × (gen_vless_link web vless_inbound target same "id" "" none ≡ some link)
    × (parse_vless_link web link
        ≡ some (vless_of web "id" target (vless_params web plain_stream "none" "none" "" none)))
parse_vless_link-gen_vless_link_example =
    parse_vless_link-gen_vless_link web vless_inbound none plain_stream target same "id" "none" ""
      none refl refl vless_laws

parse_trojan_link-gen_trojan_link_example :
    (link : String) × (gen_trojan_link web trojan_inbound target same "a/b" none ≡ some link)
    × (parse_trojan_link web link
        ≡ some (trojan_of web "a%2Fb" target (trojan_params web plain_stream "none" none)))
parse_trojan_link-gen_trojan_link_example =
    parse_trojan_link-gen_trojan_link web trojan_inbound none plain_stream target same "a/b" none
      refl refl trojan_laws

abbrev ws_stream : StreamSettings ℕ
ws_stream = record {
  transport = ws (record { path = "/a"; host = "s"; headers = [] });
  security = tls (record {
    server_name = "s";
    alpn = "h2" ∷ [];
    fingerprint = "chrome";
    ech_config_list = "";
    pinned_peer_cert_sha256 = [];
  });
  external_proxy = [];
  finalmask = none;
}

prop-vless_params_example :
    (prop (stream_of_params web (vless_params web ws_stream "none" "tls" "" none) "none") "network"
      ≡ str "ws")
    × (prop
          (stream_of_params web (vless_params web ws_stream "none" "tls" "" none) "none")
          "security"
        ≡ str "tls")
    × (get_or "encryption" (vless_params web ws_stream "none" "tls" "" none) "none" ≡ "none")
prop-vless_params_example = prop-vless_params web ws_stream "none" "tls" "" "none" none

abbrev naming : Naming
naming = record { remark = "n"; remark_model = "-ieo"; host_override = "h"; fallback_hostname = "" }

abbrev client : ClientShape
client = record {
  id = some "id";
  security = none;
  flow = none;
  password = none;
  auth = none;
  email = some "mail";
}

one_link : (es : List LinkEntry) × (gen_all_links web vless_inbound naming client ≡ some es)
unfolding gen_all_links gen_vless_link decimal compose_remark
one_link = (record { remark = "n-mail"; link = "vless" } ∷ [], refl)

gen_all_links-remarks_example :
    map (λ e. e.remark) one_link.0
    ≡ expected_remarks web (proxies_of web vless_inbound.stream) naming client
gen_all_links-remarks_example =
    gen_all_links-remarks web vless_inbound naming client one_link.0 one_link.1

two_clients :
    (links : List String) × (client_links web vless_inbound naming (client ∷ client ∷ [])
      ≡ some links)
unfolding client_links gen_vless_link decimal compose_remark
two_clients = ("vless" ∷ "vless" ∷ [], refl)

length-client_links_example :
    length two_clients.0
    ≡ length (client ∷ client ∷ []) * links_per_client (proxies_of web vless_inbound.stream)
length-client_links_example =
    length-client_links web vless_inbound naming (client ∷ client ∷ []) two_clients.0 two_clients.1
