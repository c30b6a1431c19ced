-- ===== src/LinkParser/Ss.antt =====
-- `parseShadowsocksLink`.
use x_ui_glass.Shared.{String, Option, some, maybe, or_else, ◌>>=◌, after, cut, cut_last}
use x_ui_glass.Json.{Value, num, str, arr, obj, nil, cons, end, field}
use x_ui_glass.Platform.{Web, number_or}
use x_ui_glass.LinkParser.Stream.{}
use x_ui_glass.LinkParser.Base.{plain_outbound}

module _ {N : Type 0} (web : Web N) where
  -- What both shapes of a Shadowsocks link come to: the user info and `host:port`.
  unfoldable pub shadowsocks_outbound : String → String → String → Option (Value N)
  unfolding cut cut_last number_or
  shadowsocks_outbound remark user_info host_port = do
    (host, port) ← cut_last b':' host_port
    let (method, password) = or_else (cut b':' user_info) ("2022-blake3-aes-128-gcm", user_info)
    let server : Value N = obj (
        field "address" (str host) (
          field "port" (num (number_or web (str port) 443))
            (field "password" (str password) (field "method" (str method) end))))
    some (
        plain_outbound web "shadowsocks" remark (obj (field "servers" (arr (cons server nil)) end)))

  -- `core` stands behind the scheme: `userinfo@host:port`, or all of it encoded.
  unfoldable pub shadowsocks_core : String → String → Option (Value N)
  unfolding shadowsocks_outbound cut
  shadowsocks_core remark core =
      maybe (cut b'@' core)
        (do
          decoded ← web.decode_base64 core
          (user_info, host_port) ← cut b'@' decoded
          shadowsocks_outbound remark user_info host_port)
        (λ p. shadowsocks_outbound remark (or_else (web.decode_base64 p.0) p.0) p.1)

  -- The text without its fragment and the decoded fragment, if it has one.
  unfoldable pub split_hash : String → String × String
  unfolding cut
  split_hash rest =
      maybe {B = String × String} (cut b'#' rest) (rest, "")
        (λ p. (p.0, or_else (web.decode_component p.1) ""))

  unfoldable pub without_query : String → String
  unfolding cut
  without_query s = maybe (cut b'?' s) s (λ p. p.0)

  unfoldable pub parse_shadowsocks_link : String → Option (Value N)
  unfolding after split_hash without_query shadowsocks_core
  parse_shadowsocks_link link = do
    rest ← after "ss://" link
    shadowsocks_core (split_hash rest).1 (without_query (split_hash rest).0)
