-- ===== src/LinkParser/Accepted.antt =====
-- What a link that one of the six parsers accepts looks like, and what the parser makes of it:
-- frontend/src/lib/xray/outbound-link-parser.ts.
use x_ui_glass.Shared.{
  String, Bool, true, ◌≡◌, sym, ap, ◌∙◌, Option, none, some, if◌then◌else◌, arith, is_some, cut,
  cut_last, str_eq, after, >>=-eq-some, Option-cases, inl, inr, ◌⊎◌, maybe_intro, or_else,
}
use x_ui_glass.Json.{Value, str, obj, Fields, field}
use x_ui_glass.Platform.{Web, Url, properties}
use x_ui_glass.LinkParser.{
  without_colon, or_try, parse_url_link, parse_vmess_link, vmess_outbound, vmess_stream, split_hash,
  without_query, parse_vless_link, parse_trojan_link, parse_shadowsocks_link, shadowsocks_core,
  shadowsocks_outbound, parse_hysteria2_link, parse_wireguard_link,
}

pub data Scheme : Type 0 where
  vmess vless trojan shadowsocks hysteria2 wireguard : Scheme

abbrev pub protocol_name : Scheme → String
protocol_name vmess = "vmess"
protocol_name vless = "vless"
protocol_name trojan = "trojan"
protocol_name shadowsocks = "shadowsocks"
protocol_name hysteria2 = "hysteria"
protocol_name wireguard = "wireguard"

guarded {ℓ} :
    {A : Type ℓ} (b : Bool) (x y : A) → (if b then some x else none) ≡ some y → (b ≡ true) × (x ≡ y)
guarded b x y h = ground arith

second_try {ℓ} : {A : Type ℓ} (a b : Option A) {x : A} → a ≡ none → or_try a b ≡ some x → b ≡ some x
second_try none b e h = h
second_try (some a) b e h = cc

pub try_first {ℓ} : {A : Type ℓ} (a b : Option A) {x : A} → a ≡ some x → or_try a b ≡ some x
try_first none b e = cc
try_first (some a) b e = e

pub try_next {ℓ} :
    {A : Type ℓ} (a b : Option A) {x : A}
    → (a ≡ none) ⊎ (a ≡ some x)
    → b ≡ some x
    → or_try a b ≡ some x
try_next none b e h = h
try_next (some a) b (inl e) h = cc
try_next (some a) b (inr e) h = e

pub try_cases {ℓ} :
    {A : Type ℓ} (a b : Option A) {x : A} → or_try a b ≡ some x → (a ≡ some x) ⊎ (b ≡ some x)
try_cases none b h = inr h
try_cases (some a) b h = inl h

pub some_inj {ℓ} : {A : Type ℓ} {x y : A} → some x ≡ some y → x ≡ y
some_inj h = cc

module _ {N : Type 0} where
  abbrev pub HasProtocol : Scheme → Value N → Type 0
  HasProtocol a v = (fs : Fields N) × (v ≡ obj (field "protocol" (str (protocol_name a)) fs))

module _ {N : Type 0} (web : Web N) where
  abbrev pub parser : Scheme → String → Option (Value N)
  parser vmess = parse_vmess_link web
  parser vless = parse_vless_link web
  parser trojan = parse_trojan_link web
  parser shadowsocks = parse_shadowsocks_link web
  parser hysteria2 = parse_hysteria2_link web
  parser wireguard = parse_wireguard_link web

  parse_url_link_lem :
      (link expected : String) (u : Url)
      → parse_url_link web link expected ≡ some u
      → (web.parse_url link ≡ some u) × (str_eq (without_colon u.protocol) expected ≡ true)
  unfolding parse_url_link
  parse_url_link_lem link expected u h =
      let (w, e, k) = >>=-eq-some (web.parse_url link) _ h in
      let (p, q) = guarded (str_eq (without_colon w.protocol) expected) w u k in
      (e ∙ ap (λ x. some x) q, ap (λ x. str_eq (without_colon x.protocol) expected) (sym q) ∙ p)

  -- What a parser that accepts a link says of it: the scheme of a URL, or the start of the text.
  abbrev pub Named : String → String → Type 0
  Named link s =
      (u : Url) × (web.parse_url link ≡ some u) × (str_eq (without_colon u.protocol) s ≡ true)

  abbrev pub Accepted : Scheme → String → Type 0
  Accepted vmess link = is_some (after "vmess://" link) ≡ true
  Accepted vless link = Named link "vless"
  Accepted trojan link = Named link "trojan"
  Accepted shadowsocks link = is_some (after "ss://" link) ≡ true
  Accepted hysteria2 link = Named link "hysteria2" ⊎ Named link "hy2"
  Accepted wireguard link = Named link "wireguard" ⊎ Named link "wg"

  named : (link s : String) (u : Url) → parse_url_link web link s ≡ some u → Named link s
  named link s u h = let (e, p) = parse_url_link_lem link s u h in (u, e, p)

  vless-Accepted :
      (link : String) (v : Value N)
      → parse_vless_link web link ≡ some v
      → Accepted vless link × HasProtocol vless v
  unfolding parse_vless_link
  vless-Accepted link v h =
      let (u, e, k) = >>=-eq-some (parse_url_link web link "vless") _ h in
      (named link "vless" u e, (_, sym (some_inj k)))

  trojan-Accepted :
      (link : String) (v : Value N)
      → parse_trojan_link web link ≡ some v
      → Accepted trojan link × HasProtocol trojan v
  unfolding parse_trojan_link
  trojan-Accepted link v h =
      let (u, e, k) = >>=-eq-some (parse_url_link web link "trojan") _ h in
      (named link "trojan" u e, (_, sym (some_inj k)))

  either_url :
      (link s t : String) (u : Url)
      → or_try (parse_url_link web link s) (parse_url_link web link t) ≡ some u
      → Named link s ⊎ Named link t
  either_url link s t u h = elim (Option-cases (parse_url_link web link s)) [
    | inl e ↦ inr (named link t u (second_try _ _ e h))
    | inr (w, e) ↦ inl (named link s w e)
  ]

  hysteria2-Accepted :
      (link : String) (v : Value N)
      → parse_hysteria2_link web link ≡ some v
      → Accepted hysteria2 link × HasProtocol hysteria2 v
  unfolding parse_hysteria2_link
  hysteria2-Accepted link v h =
      let (u, e, k) =
        >>=-eq-some (or_try (parse_url_link web link "hysteria2") (parse_url_link web link "hy2")) _
          h in
      (either_url link "hysteria2" "hy2" u e, (_, sym (some_inj k)))

  wireguard-Accepted :
      (link : String) (v : Value N)
      → parse_wireguard_link web link ≡ some v
      → Accepted wireguard link × HasProtocol wireguard v
  unfolding parse_wireguard_link
  wireguard-Accepted link v h =
      let (u, e, k) =
        >>=-eq-some (or_try (parse_url_link web link "wireguard") (parse_url_link web link "wg")) _
          h in
      (either_url link "wireguard" "wg" u e, (_, sym (some_inj k)))

  shadowsocks_outbound-HasProtocol :
      (remark user_info host_port : String) (v : Value N)
      → shadowsocks_outbound web remark user_info host_port ≡ some v
      → HasProtocol shadowsocks v
  unfolding shadowsocks_outbound
  shadowsocks_outbound-HasProtocol remark user_info host_port v h =
      let (p, e, k) = >>=-eq-some (cut_last b':' host_port) _ h in (_, sym (some_inj k))

  shadowsocks_core-HasProtocol :
      (remark core : String) (v : Value N)
      → shadowsocks_core web remark core ≡ some v
      → HasProtocol shadowsocks v
  unfolding shadowsocks_core
  shadowsocks_core-HasProtocol remark core v =
      maybe_intro (λ o. o ≡ some v → HasProtocol shadowsocks v) (cut b'@' core)
        (λ _ h.
          let (d, _, k) = >>=-eq-some (web.decode_base64 core) _ h in
          let (p, _, m) = >>=-eq-some (cut b'@' d) _ k in
          shadowsocks_outbound-HasProtocol remark p.0 p.1 v m)
        (λ p _ h.
          shadowsocks_outbound-HasProtocol remark (or_else (web.decode_base64 p.0) p.0) p.1 v h)

  shadowsocks-Accepted :
      (link : String) (v : Value N)
      → parse_shadowsocks_link web link ≡ some v
      → Accepted shadowsocks link × HasProtocol shadowsocks v
  unfolding parse_shadowsocks_link
  shadowsocks-Accepted link v h =
      let (rest, e, k) = >>=-eq-some (after "ss://" link) _ h in
      (
        ap is_some e,
        shadowsocks_core-HasProtocol (split_hash web rest).1
            (without_query web (split_hash web rest).0) v k,
      )

  vmess_outbound-HasProtocol :
      (json : Fields N) (v : Value N) → vmess_outbound web json ≡ some v → HasProtocol vmess v
  unfolding vmess_outbound
  vmess_outbound-HasProtocol json v h =
      let (stream, _, k) = >>=-eq-some (vmess_stream web json) _ h in (_, sym (some_inj k))

  vmess-Accepted :
      (link : String) (v : Value N)
      → parse_vmess_link web link ≡ some v
      → Accepted vmess link × HasProtocol vmess v
  unfolding parse_vmess_link
  vmess-Accepted link v h =
      let (encoded, e, k) = >>=-eq-some (after "vmess://" link) _ h in
      let (decoded, _, l) = >>=-eq-some (web.decode_base64 encoded) _ k in
      let (parsed, _, m) = >>=-eq-some (web.parse_json decoded) _ l in
      let (json, _, r) = >>=-eq-some (properties parsed) _ m in
      (ap is_some e, vmess_outbound-HasProtocol json v r)

  pub parser-Accepted :
      (a : Scheme) (link : String) (v : Value N)
      → parser a link ≡ some v
      → Accepted a link × HasProtocol a v
  parser-Accepted vmess = vmess-Accepted
  parser-Accepted vless = vless-Accepted
  parser-Accepted trojan = trojan-Accepted
  parser-Accepted shadowsocks = shadowsocks-Accepted
  parser-Accepted hysteria2 = hysteria2-Accepted
  parser-Accepted wireguard = wireguard-Accepted
