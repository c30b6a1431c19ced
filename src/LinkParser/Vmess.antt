-- ===== src/LinkParser/Vmess.antt =====
-- `parseVmessLink`.
use x_ui_glass.Shared.{
  String, ◌&&◌, Option, none, some, if◌then◌else◌, maybe, split, str_eq, ◌>>=◌, after,
}
use x_ui_glass.Json.{
  Value, bool, num, str, arr, obj, nil, cons, Fields, end, field, prop, with_prop, texts,
}
use x_ui_glass.Platform.{Web, is_text, nullish, properties, is_truthy, number_or}
use x_ui_glass.LinkParser.Stream.{build_stream, on_prop, http_header, apply_xhttp_json}
use x_ui_glass.LinkParser.Base.{outbound}

module _ {N : Type 0} (web : Web N) where
  -- A call of a method that only texts have throws on any other value.
  abbrev text_of : Value N → Option String
  text_of (str s) = some s
  text_of v = none

  -- `value ? (value as string).split… : none`, for a value that may be no text
  abbrev truthy_text : Value N → Option (Option String)
  truthy_text v = if is_truthy web v then (do s ← text_of v; some (some s)) else some none

  abbrev host_and_path : Fields N → Fields N → Fields N
  host_and_path json fs =
      with_prop "path" (nullish (prop json "path") (str "/"))
        (with_prop "host" (nullish (prop json "host") (str "")) fs)

  -- The branches of `parseVmessLink` on the network.
  unfoldable pub vmess_transport : Fields N → Fields N → Option (Fields N)
  unfolding on_prop is_text nullish prop with_prop http_header apply_xhttp_json is_truthy
  vmess_transport json stream =
      let network = prop stream "network" in
      if is_text network "tcp" && is_text (prop json "type") "http"
      then (do
        path ← text_of (nullish (prop json "path") (str "/"))
        host ← truthy_text (prop json "host")
        some (on_prop "tcpSettings" (with_prop "header" (http_header path host)) stream))
      else if is_text network "ws"
      then some (on_prop "wsSettings" (host_and_path json) stream)
      else if is_text network "grpc"
      then some (
          on_prop "grpcSettings"
            (λ fs. with_prop "multiMode" (bool (is_text (prop json "type") "multi")) (
              with_prop "authority" (nullish (prop json "authority") (str ""))
                (with_prop "serviceName" (nullish (prop json "path") (str "")) fs)))
            stream)
      else if is_text network "httpupgrade"
      then some (on_prop "httpupgradeSettings" (host_and_path json) stream)
      else if is_text network "xhttp"
      then some (
          on_prop "xhttpSettings"
            (λ fs.
              apply_xhttp_json
                (if is_truthy web (prop json "mode")
                  then with_prop "mode" (prop json "mode") (host_and_path json fs)
                  else host_and_path json fs)
                json)
            stream)
      else some stream

  -- The branch on the security.
  unfoldable pub vmess_security : Fields N → String → Fields N → Option (Fields N)
  unfolding on_prop nullish prop with_prop texts split is_truthy
  vmess_security json security stream =
      if str_eq security "tls"
      then (do
        alpn ← truthy_text (prop json "alpn")
        some (
            on_prop "tlsSettings"
              (λ fs.
                (let named =
                    with_prop "fingerprint" (nullish (prop json "fp") (str ""))
                      (with_prop "serverName" (nullish (prop json "sni") (str "")) fs) in
                  maybe alpn named (λ a. with_prop "alpn" (arr (texts (split b',' a))) named)))
              stream))
      else some stream

  -- `typeof json.ps === 'string' ? json.ps : ''`
  abbrev text_or_empty : Value N → String
  text_or_empty (str s) = s
  text_or_empty v = ""

  -- The stream of a VMess object.
  unfoldable pub vmess_stream : Fields N → Option (Fields N)
  unfolding build_stream vmess_transport vmess_security is_truthy is_text prop
  vmess_stream json = do
    let network = if is_truthy web (prop json "net") then prop json "net" else str "tcp"
    let security = if is_text (prop json "tls") "tls" then "tls" else "none"
    placed ← vmess_transport json (build_stream web network security)
    vmess_security json security placed

  unfoldable pub vmess_outbound : Fields N → Option (Value N)
  unfolding vmess_stream is_truthy nullish number_or prop
  vmess_outbound json = do
    stream ← vmess_stream json
    let scy = if is_truthy web (prop json "scy") then prop json "scy" else str "auto"
    let user : Value N =
        obj (field "id" (nullish (prop json "id") (str "")) (field "security" scy end))
    let server : Value N = obj (
        field "address" (nullish (prop json "add") (str "")) (
          field "port" (num (number_or web (prop json "port") 443))
            (field "users" (arr (cons user nil)) end)))
    some (
        outbound web "vmess" (text_or_empty (prop json "ps"))
          (obj (field "vnext" (arr (cons server nil)) end)) stream)

  unfoldable pub parse_vmess_link : String → Option (Value N)
  unfolding after properties vmess_outbound
  parse_vmess_link link = do
    encoded ← after "vmess://" link
    decoded ← web.decode_base64 encoded
    parsed ← web.parse_json decoded
    json ← properties parsed
    vmess_outbound json
