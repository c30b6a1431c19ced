-- ===== src/LinkParser/Shadowsocks.antt =====
-- The two shapes of a Shadowsocks link: `userinfo@host:port` behind the scheme, where the user
-- info may be encoded, or the whole of it encoded.
use text.Mathlib.TextLemmas.{cons-append, nil-append}
use x_ui_glass.Shared.{
  String, Bool, true, ◌≡◌, refl, ap, ◌∙◌, none, some, ◌==◌, ◌+++◌, ◌&&◌, not, arith, cut, after,
  or_else, ℕ, cut_last,
}
use Prim.Native.Char.{Char, code}
use x_ui_glass.Json.{Value, str, num, arr, obj, field, end, cons, nil}
use x_ui_glass.Platform.{Web, number_or}
use x_ui_glass.LinkParser.{
  shadowsocks_core, shadowsocks_outbound, plain_outbound, parse_shadowsocks_link, split_hash,
  without_query,
}

-- That a character does not stand in a text.
unfoldable pub lacks : ℕ → String → Bool
lacks c String.[] = true
lacks c (String.◌∷◌ d s) = not (code d == c) && lacks c s

lacks-append : (c : ℕ) (s t : String) → lacks c (s +++ t) ≡ (lacks c s && lacks c t)
unfolding lacks
lacks-append c String.[] t = rw (nil-append t) refl
lacks-append c (String.◌∷◌ d s) t = rw (cons-append d s t) (ground (arith, lacks-append c s t))

cut-none : (c : ℕ) (s : String) → lacks c s ≡ true → cut c s ≡ none
unfolding lacks cut
cut-none c String.[] h = refl
cut-none c (String.◌∷◌ d s) h = ground (arith, cut-none c s)

cut-append :
    (d : Char) (s t : String)
    → lacks (code d) s ≡ true
    → cut (code d) (s +++ String.◌∷◌ d t) ≡ some (s, t)
unfolding lacks cut
cut-append d String.[] t h = rw (nil-append (String.◌∷◌ d t)) (ground arith)
cut-append d (String.◌∷◌ c s) t h =
    rw (cons-append c s (String.◌∷◌ d t)) (ground (arith, cut-append d s t))

cut_last-none : (c : ℕ) (s : String) → lacks c s ≡ true → cut_last c s ≡ none
unfolding lacks cut_last
cut_last-none c String.[] h = refl
cut_last-none c (String.◌∷◌ d s) h = ground (arith, cut_last-none c s)

cut_last-append :
    (d : Char) (s t : String)
    → lacks (code d) t ≡ true
    → cut_last (code d) (s +++ String.◌∷◌ d t) ≡ some (s, t)
unfolding cut_last
cut_last-append d String.[] t h =
    rw (nil-append (String.◌∷◌ d t)) (ground (arith, cut_last-none (code d) t))
cut_last-append d (String.◌∷◌ c s) t h =
    rw (cons-append c s (String.◌∷◌ d t)) (ground (arith, cut_last-append d s t))

after-append : (p s : String) → after p (p +++ s) ≡ some s
unfolding after
after-append String.[] s = rw (nil-append s) refl
after-append (String.◌∷◌ c p) s = rw (cons-append c p s) (ground (arith, after-append p s))

-- What no character of an encoding is: the marks that a link is cut at.
abbrev pub IsCore : String → Type 0
IsCore s = (lacks b'@' s ≡ true) × (lacks b'#' s ≡ true) × (lacks b'?' s ≡ true)

core-lacks :
    (c : ℕ) (s t : String)
    → lacks c s ≡ true
    → lacks c t ≡ true
    → lacks c "@" ≡ true
    → lacks c (s +++ "@" +++ t) ≡ true
core-lacks c s t h k a = rw (lacks-append c s ("@" +++ t), lacks-append c "@" t, h, k, a) refl

behind : (d : Char) (t : String) → String.◌∷◌ d "" +++ t ≡ String.◌∷◌ d t
behind d t = cons-append d "" t ∙ ap (String.◌∷◌ d) (nil-append t)

module _ {N : Type 0} (web : Web N) where
  abbrev pub server_of : String → String → String → String → String → Value N
  server_of remark method password host port = plain_outbound web "shadowsocks" remark (
      obj (
        field "servers"
          (arr (
            cons
              (obj (
                field "address" (str host) (
                  field "port" (num (number_or web (str port) 443))
                    (field "password" (str password) (field "method" (str method) end)))))
              nil))
          end))

  shadowsocks_outbound_lem :
      (remark method password host port : String)
      → lacks b':' method ≡ true
      → lacks b':' port ≡ true
      → shadowsocks_outbound web remark (method +++ ":" +++ password) (host +++ ":" +++ port)
        ≡ some (server_of remark method password host port)
  unfolding shadowsocks_outbound
  shadowsocks_outbound_lem remark method password host port m p =
      rw
        (
          behind ":" password,
          behind ":" port,
          cut_last-append ":" host port p,
          cut-append ":" method password m,
        )
        refl

  -- A user info that is encoded, in front of `@`.
  pub shadowsocks_core-modern :
      (remark encoded user_info host_port : String)
      → lacks b'@' encoded ≡ true
      → or_else (web.decode_base64 encoded) encoded ≡ user_info
      → shadowsocks_core web remark (encoded +++ "@" +++ host_port)
        ≡ shadowsocks_outbound web remark user_info host_port
  unfolding shadowsocks_core
  shadowsocks_core-modern remark encoded user_info host_port l d =
      rw (behind "@" host_port, cut-append "@" encoded host_port l, d) refl

  -- All of it encoded.
  pub shadowsocks_core-legacy :
      (remark encoded user_info host_port : String)
      → lacks b'@' encoded ≡ true
      → lacks b'@' user_info ≡ true
      → web.decode_base64 encoded ≡ some (user_info +++ "@" +++ host_port)
      → shadowsocks_core web remark encoded ≡ shadowsocks_outbound web remark user_info host_port
  unfolding shadowsocks_core
  shadowsocks_core-legacy remark encoded user_info host_port l u d =
      rw (cut-none b'@' encoded l, d, behind "@" host_port, cut-append "@" user_info host_port u)
        refl

  -- A link is its core, a query that is ignored, and its name.
  abbrev pub with_name : String → String → String
  with_name core name = "ss://" +++ core +++ "#" +++ name

  named_core :
      (core name remark : String)
      → lacks b'#' core ≡ true
      → lacks b'?' core ≡ true
      → web.decode_component name ≡ some remark
      → parse_shadowsocks_link web (with_name core name) ≡ shadowsocks_core web remark core
  unfolding parse_shadowsocks_link split_hash without_query
  named_core core name remark h q d =
      rw
        (
          after-append "ss://" (core +++ "#" +++ name),
          behind "#" name,
          cut-append "#" core name h,
          d,
          cut-none b'?' core q,
        )
        refl

  -- A link with encoded user info and a link that is encoded as a whole, of one method, password,
  -- host, port and name, give the same outbound, which has those five.
  pub parse_shadowsocks_link_shapes :
      (method password host port name remark user_code whole_code : String)
      → lacks b':' method ≡ true
      → lacks b':' port ≡ true
      → lacks b'@' (method +++ ":" +++ password) ≡ true
      → web.decode_component name ≡ some remark
      → web.decode_base64 user_code ≡ some (method +++ ":" +++ password)
      → web.decode_base64 whole_code
        ≡ some ((method +++ ":" +++ password) +++ "@" +++ host +++ ":" +++ port)
      → IsCore user_code
      → IsCore whole_code
      → lacks b'#' (host +++ ":" +++ port) ≡ true
      → lacks b'?' (host +++ ":" +++ port) ≡ true
      → (parse_shadowsocks_link web (with_name (user_code +++ "@" +++ host +++ ":" +++ port) name)
          ≡ some (server_of remark method password host port))
        × (parse_shadowsocks_link web (with_name whole_code name)
            ≡ some (server_of remark method password host port))
  unfolding lacks
  parse_shadowsocks_link_shapes method password host port name remark user_code whole_code m p u r d
        w cu cw hh hq =
      (
        named_core (user_code +++ "@" +++ host +++ ":" +++ port) name remark
              (core-lacks b'#' user_code (host +++ ":" +++ port) cu.1 hh refl)
              (core-lacks b'?' user_code (host +++ ":" +++ port) cu.2 hq refl) r
            ∙ shadowsocks_core-modern remark user_code (method +++ ":" +++ password)
                (host +++ ":" +++ port) cu.0 (rw d refl)
            ∙ shadowsocks_outbound_lem remark method password host port m p,
        named_core whole_code name remark cw.1 cw.2 r
            ∙ shadowsocks_core-legacy remark whole_code (method +++ ":" +++ password)
                (host +++ ":" +++ port) cw.0 u w
            ∙ shadowsocks_outbound_lem remark method password host port m p,
      )
