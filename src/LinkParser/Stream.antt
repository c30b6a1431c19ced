-- ===== src/LinkParser/Stream.antt =====
-- The stream settings that a share link describes: `buildStream` and the functions that write the
-- parameters of a link into them.
use x_ui_glass.Shared.{
  String, Bool, true, false, not, ◌||◌, ◌&&◌, Option, none, some, List, [], ◌∷◌, if◌then◌else◌,
  maybe, is_empty, or_else, split, keep, str_eq,
}
use x_ui_glass.Shared.Property.{lookup}
use x_ui_glass.Json.{
  Value, bool, num, str, arr, obj, nil, Fields, end, field, prop, with_prop, texts,
}
use x_ui_glass.Platform.{Web, get, get_or, nonempty, is_text, properties, is_object, number_or}

abbrev pub xhttp_string_keys : List String
xhttp_string_keys =
    "xPaddingBytes" ∷ "xPaddingKey" ∷ "xPaddingHeader" ∷ "xPaddingPlacement" ∷ "xPaddingMethod"
    ∷ "sessionPlacement" ∷ "sessionKey" ∷ "seqPlacement" ∷ "seqKey" ∷ "uplinkDataPlacement"
    ∷ "uplinkDataKey" ∷ "scMaxEachPostBytes" ∷ "scMinPostsIntervalMs" ∷ "scStreamUpServerSecs"
    ∷ "uplinkHTTPMethod" ∷ []

abbrev pub xhttp_number_keys : List String
xhttp_number_keys = "scMaxBufferedPosts" ∷ "serverMaxHeaderBytes" ∷ "uplinkChunkSize" ∷ []

abbrev pub xhttp_bool_keys : List String
xhttp_bool_keys = "xPaddingObfsMode" ∷ "noSSEHeader" ∷ "noGRPCHeader" ∷ []

-- `s.split(',').filter(Boolean)`
abbrev pub nonempty_parts : String → List String
nonempty_parts s = keep (λ p. not (is_empty p)) (split b',' s)

-- `asBool` of a parameter that is there
abbrev pub as_bool : String → Bool
as_bool s = str_eq s "true" || str_eq s "1"

module _ {N : Type 0} where
  -- `for (const k of keys) if (test(json[k])) xhttp[k] = json[k]`
  copy_if : (Value N → Bool) → Fields N → List String → Fields N → Fields N
  copy_if test json [] xhttp = xhttp
  copy_if test json (k ∷ ks) xhttp =
      copy_if test json ks (if test (prop json k) then with_prop k (prop json k) xhttp else xhttp)

  -- `for (const k of keys) { const v = params.get(k); if (v) xhttp[k] = value(v) }`
  copy_params : (String → Value N) → List (String × String) → List String → Fields N → Fields N
  copy_params value params [] xhttp = xhttp
  copy_params value params (k ∷ ks) xhttp =
      copy_params value params ks
        (maybe (nonempty (get k params)) xhttp (λ v. with_prop k (value v) xhttp))

  abbrev is_str : Value N → Bool
  is_str (str s) = true
  is_str v = false

  abbrev is_num : Value N → Bool
  is_num (num n) = true
  is_num v = false

  abbrev is_bool : Value N → Bool
  is_bool (bool b) = true
  is_bool v = false

  unfoldable pub apply_xhttp_json : Fields N → Fields N → Fields N
  unfolding copy_if
  apply_xhttp_json xhttp json =
      copy_if is_bool json xhttp_bool_keys
        (copy_if is_num json xhttp_number_keys (copy_if is_str json xhttp_string_keys xhttp))

  -- `o[name] = f(o[name])` for a property that holds an object
  unfoldable pub on_prop : String → (Fields N → Fields N) → Fields N → Fields N
  unfolding prop with_prop
  on_prop name f fs = with_prop name (obj (f (or_else (properties (prop fs name)) end))) fs

  abbrev no_header : Value N
  no_header = obj (field "header" (obj (field "type" (str "none") end)) end)

  -- The header of a TCP transport that poses as HTTP, from a path and a host.
  unfoldable pub http_header : String → Option String → Value N
  unfolding texts split keep
  http_header path host =
      let headers = maybe host end (λ h. field "Host" (arr (texts (nonempty_parts h))) end) in
      obj (
        field "type" (str "http") (
          field "request"
            (obj (
              field "version" (str "1.1") (
                field "method" (str "GET") (
                  field "path" (arr (texts (nonempty_parts path)))
                    (field "headers" (obj headers) end)))))
            end))

  module _ (web : Web N) where
    abbrev n : Prim.Native.Nat.ℕ → Value N
    n k = num (web.number k)

    -- The branch of `buildStream` for a network.
    unfoldable pub network_settings : Value N → String × Value N
    unfolding is_text
    network_settings network =
        if is_text network "kcp"
        then (
          "kcpSettings",
          obj (
              field "mtu" (n 1350) (
                field "tti" (n 20) (
                  field "uplinkCapacity" (n 5) (
                    field "downlinkCapacity" (n 20)
                      (field "cwndMultiplier" (n 1) (field "maxSendingWindow" (n 2097152) end)))))),
        )
        else if is_text network "ws"
        then (
          "wsSettings",
          obj (
              field "path" (str "/") (
                field "host" (str "")
                  (field "headers" (obj end) (field "heartbeatPeriod" (n 0) end)))),
        )
        else if is_text network "grpc"
        then (
          "grpcSettings",
          obj (
              field "serviceName" (str "")
                (field "authority" (str "") (field "multiMode" (bool false) end))),
        )
        else if is_text network "httpupgrade"
        then (
          "httpupgradeSettings",
          obj (field "path" (str "/") (field "host" (str "") (field "headers" (obj end) end))),
        )
        else if is_text network "xhttp"
        then (
          "xhttpSettings",
          obj (
              field "path" (str "/") (
                field "host" (str "") (
                  field "mode" (str "auto") (
                    field "headers" (obj end) (
                      field "xPaddingBytes" (str "100-1000")
                        (field "scMaxEachPostBytes" (str "1000000") end)))))),
        )
        else ("tcpSettings", no_header)

    -- The branch of `buildStream` for a security.
    unfoldable pub security_settings : String → Fields N
    security_settings security =
        if str_eq security "tls"
        then field "tlsSettings"
            (obj (
              field "serverName" (str "") (
                field "alpn" (arr nil) (
                  field "fingerprint" (str "") (
                    field "echConfigList" (str "") (
                      field "verifyPeerCertByName" (str "")
                        (field "pinnedPeerCertSha256" (str "") end)))))))
            end
        else if str_eq security "reality"
        then field "realitySettings"
            (obj (
              field "publicKey" (str "") (
                field "fingerprint" (str "chrome") (
                  field "serverName" (str "") (
                    field "shortId" (str "")
                      (field "spiderX" (str "") (field "mldsa65Verify" (str "") end)))))))
            end
        else end

    unfoldable pub build_stream : Value N → String → Fields N
    unfolding network_settings security_settings
    build_stream network security =
        let (name, settings) = network_settings network in
        field "network" network
          (field "security" (str security) (field name settings (security_settings security)))

    -- The `try` of `applyXhttpStringFromParams`: what is thrown leaves the settings as they were.
    abbrev apply_extra : Option (Value N) → Fields N → Fields N
    apply_extra none xhttp = xhttp
    apply_extra (some parsed) xhttp = maybe (properties parsed) xhttp (λ json.
        (let merged = apply_xhttp_json xhttp json in
          if is_object (prop json "headers")
          then with_prop "headers" (prop json "headers") merged
          else merged))

    unfoldable pub apply_xhttp_params : Fields N → List (String × String) → Fields N
    unfolding apply_xhttp_json copy_params properties is_object number_or lookup prop with_prop
    apply_xhttp_params xhttp params =
        let padded =
          maybe (nonempty (get "x_padding_bytes" params)) xhttp
            (λ v. with_prop "xPaddingBytes" (str v) xhttp) in
        let extra =
          maybe (nonempty (get "extra" params)) padded
            (λ text. apply_extra (web.parse_json text) padded) in
        let strings = copy_params (λ v. str v) params xhttp_string_keys extra in
        let numbers =
          copy_params (λ v. num (number_or web (str v) 0)) params xhttp_number_keys strings in
        copy_params (λ v. bool (as_bool v)) params xhttp_bool_keys numbers

    unfoldable pub apply_transport_params : Fields N → List (String × String) → Fields N
    unfolding apply_xhttp_params on_prop is_text http_header
    apply_transport_params stream params =
        let network = prop stream "network" in
        let host = get_or "host" params "" in
        let path = get_or "path" params "/" in
        let placed =
          λ (fs : Fields N). with_prop "path" (str path) (with_prop "host" (str host) fs) in
        if is_text network "ws"
        then on_prop "wsSettings" placed stream
        else if is_text network "grpc"
        then on_prop "grpcSettings"
            (λ fs. with_prop "multiMode" (bool (str_eq (get_or "mode" params "") "multi")) (
              with_prop "authority" (str (get_or "authority" params "")) (
                with_prop "serviceName"
                  (str (or_else (get "serviceName" params) (get_or "path" params ""))) fs)))
            stream
        else if is_text network "httpupgrade"
        then on_prop "httpupgradeSettings" placed stream
        else if is_text network "xhttp"
        then on_prop "xhttpSettings"
            (λ fs.
              apply_xhttp_params
                (maybe (nonempty (get "mode" params)) (placed fs)
                  (λ mode. with_prop "mode" (str mode) (placed fs)))
                params)
            stream
        else if is_text network "tcp"
            && (str_eq (get_or "headerType" params "") "http"
                || str_eq (get_or "type" params "") "http")
        then on_prop "tcpSettings" (with_prop "header" (http_header path (nonempty (some host))))
            stream
        else stream

    -- `parsed && typeof parsed === 'object'`
    abbrev pub attach_mask : Option (Value N) → Fields N → Fields N
    attach_mask none stream = stream
    attach_mask (some parsed) stream =
        if is_object parsed then with_prop "finalmask" parsed stream else stream

    unfoldable pub apply_final_mask_param : Fields N → List (String × String) → Fields N
    unfolding is_object with_prop lookup
    apply_final_mask_param stream params =
        maybe (nonempty (get "fm" params)) stream (λ fm. attach_mask (web.parse_json fm) stream)

    unfoldable pub apply_security_params : Fields N → List (String × String) → Fields N
    unfolding on_prop is_text texts split lookup
    apply_security_params stream params =
        if is_text (prop stream "security") "tls"
        then on_prop "tlsSettings"
            (λ fs.
              (let named =
                  with_prop "fingerprint" (str (get_or "fp" params ""))
                    (with_prop "serverName" (str (get_or "sni" params "")) fs) in
                maybe (nonempty (get "alpn" params)) named
                  (λ alpn. with_prop "alpn" (arr (texts (split b',' alpn))) named)))
            stream
        else if is_text (prop stream "security") "reality"
        then on_prop "realitySettings"
            (λ fs. with_prop "mldsa65Verify" (str (get_or "pqv" params "")) (
              with_prop "spiderX" (str (get_or "spx" params "")) (
                with_prop "shortId" (str (get_or "sid" params "")) (
                  with_prop "publicKey" (str (get_or "pbk" params "")) (
                    with_prop "fingerprint" (str (get_or "fp" params "chrome"))
                      (with_prop "serverName" (str (get_or "sni" params "")) fs))))))
            stream
        else stream
