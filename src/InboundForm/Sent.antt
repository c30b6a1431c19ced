-- ===== src/InboundForm/Sent.antt =====
-- The form's inbound as it is sent: `normalizeClients`, `normalizeSniffing`,
-- `dropLegacyOptionalEmpties`, `stripTlsCertUseFile` and `formValuesToWirePayload`.
use x_ui_glass.Shared.{
  String, Bool, true, false, not, ◌||◌, Option, none, some, List, [], ◌∷◌, if◌then◌else◌, is_empty,
  maybe, or_else, includes, ◌>>=◌,
}
use x_ui_glass.Json.{
  Value, undefined, null, bool, str, arr, obj, Items, nil, cons, Fields, end, field, prop,
  with_prop, without_prop,
}
use x_ui_glass.Platform.{Web, is_truthy, is_text}
use x_ui_glass.InboundForm.Prune.{prune_fields}
use x_ui_glass.InboundForm.Stored.{InboundFormValues, tls_certs, with_certs, is_filled}

pub record WireInboundPayload (N : Type 0) : Type 0 where
  pub up : N
  pub down : N
  pub total : N
  pub remark : String
  pub enable : Bool
  pub expiry_time : N
  pub traffic_reset : String
  pub last_traffic_reset_time : N
  pub listen : String
  pub port : N
  pub protocol : String
  pub settings : String
  pub stream_settings : String
  pub sniffing : String
  pub tag : String
  pub node_id : Option N

-- The protocols of `clientSchemaForProtocol`.
abbrev pub client_protocols : List String
client_protocols = "vless" ∷ "vmess" ∷ "trojan" ∷ "shadowsocks" ∷ "hysteria" ∷ []

module _ {N : Type 0} where
  -- `v == null`
  abbrev pub is_nullish : Value N → Bool
  is_nullish undefined = true
  is_nullish null = true
  is_nullish v = false

  -- `delete c.useFile`, which throws for `null` and `undefined`
  unfoldable pub strip_cert : Value N → Option (Value N)
  unfolding without_prop
  strip_cert (obj c) = some (obj (without_prop "useFile" c))
  strip_cert v = if is_nullish v then none else some v

  unfoldable pub strip_certs : Items N → Option (Items N)
  unfolding strip_cert
  strip_certs nil = some nil
  strip_certs (cons c cs) = do c' ← strip_cert c; cs' ← strip_certs cs; some (cons c' cs')

  unfoldable pub strip_tls_cert_use_file : Fields N → Option (Fields N)
  unfolding tls_certs with_certs strip_certs
  strip_tls_cert_use_file stream =
      maybe (tls_certs stream) (some stream)
        (λ certs. strip_certs certs >>= λ certs'. some (with_certs certs' stream))

  -- `if (Array.isArray(fb) && fb.length === 0) delete settings.fallbacks`
  abbrev pub without_fallbacks : Value N → Fields N → Fields N
  without_fallbacks (arr nil) settings = without_prop "fallbacks" settings
  without_fallbacks v settings = settings

  unfoldable pub drop_empty_fallbacks : Fields N → Fields N
  unfolding prop without_prop
  drop_empty_fallbacks settings = without_fallbacks (prop settings "fallbacks") settings

  abbrev pub delete_unless : Bool → String → Fields N → Fields N
  delete_unless keep k fs = if keep then fs else without_prop k fs

  -- `hasTcp`, `hasUdp` and `hasQuic`
  abbrev pub has_mask : Fields N → Bool
  has_mask fm =
      is_filled (prop fm "tcp")
      || is_filled (prop fm "udp")
      || not (is_nullish (prop fm "quicParams"))

  -- A final mask without a mask goes; an array has none.
  abbrev pub without_mask : Value N → Fields N → Fields N
  without_mask (obj fm) stream =
      let masks =
        delete_unless (is_filled (prop fm "udp")) "udp"
          (delete_unless (is_filled (prop fm "tcp")) "tcp" fm) in
      if has_mask fm
      then with_prop "finalmask" (obj masks) stream
      else without_prop "finalmask" stream
  without_mask (arr vs) stream = without_prop "finalmask" stream
  without_mask v stream = stream

  unfoldable pub drop_empty_mask : Fields N → Fields N
  unfolding prop with_prop without_prop
  drop_empty_mask stream = without_mask (prop stream "finalmask") stream

  abbrev pub without_auth : Value N → Fields N → Fields N
  without_auth (obj hs) stream =
      if is_text (prop hs "auth") "" || is_nullish (prop hs "auth")
      then with_prop "hysteriaSettings" (obj (without_prop "auth" hs)) stream
      else stream
  without_auth v stream = stream

  unfoldable pub drop_empty_auth : Fields N → Fields N
  unfolding prop with_prop without_prop is_text
  drop_empty_auth stream = without_auth (prop stream "hysteriaSettings") stream

  -- `dropLegacyOptionalEmpties`, on the settings and on the stream
  unfoldable pub drop_legacy_optional_empties :
      Fields N → Option (Fields N) → Fields N × Option (Fields N)
  unfolding drop_empty_fallbacks drop_empty_mask drop_empty_auth
  drop_legacy_optional_empties settings none = (drop_empty_fallbacks settings, none)
  drop_legacy_optional_empties settings (some stream) =
      (drop_empty_fallbacks settings, some (drop_empty_auth (drop_empty_mask stream)))

module _ {N : Type 0} (web : Web N) where
  -- `xs?.length` as a condition
  abbrev pub has_length : Value N → Bool
  has_length (arr vs) = is_filled (arr vs)
  has_length (str s) = not (is_empty s)
  has_length (obj fs) = is_truthy web (prop fs "length")
  has_length v = false

  abbrev pub set_if : Bool → String → Value N → Fields N → Fields N
  set_if test k v fs = if test then with_prop k v fs else fs

  unfoldable pub sniffing_payload : Fields N → Fields N
  unfolding prop with_prop is_truthy
  sniffing_payload s =
      let base : Fields N =
        field "enabled" (bool true) (field "destOverride" (prop s "destOverride") end) in
      let metadata =
        set_if (is_truthy web (prop s "metadataOnly")) "metadataOnly" (bool true) base in
      let route = set_if (is_truthy web (prop s "routeOnly")) "routeOnly" (bool true) metadata in
      let ips =
        set_if (has_length (prop s "ipsExcluded")) "ipsExcluded" (prop s "ipsExcluded") route in
      let full =
        set_if (has_length (prop s "domainsExcluded")) "domainsExcluded" (prop s "domainsExcluded")
          ips in
      if is_truthy web (prop s "enabled") then full else field "enabled" (bool false) end

  -- `none` is `undefined`.
  unfoldable pub normalize_sniffing : Option (Fields N) → Fields N
  unfolding sniffing_payload
  normalize_sniffing none = field "enabled" (bool false) end
  normalize_sniffing (some s) = sniffing_payload s

  -- `parse protocol c` is what the schema of a protocol's clients makes of `c`, if it accepts it.
  module _ (parse : String → Value N → Option (Value N)) where
    unfoldable pub parse_clients : String → Items N → Items N
    parse_clients protocol nil = nil
    parse_clients protocol (cons c cs) =
        cons (or_else (parse protocol c) c) (parse_clients protocol cs)

    unfoldable pub normalize_clients : String → Value N → Value N
    unfolding includes parse_clients
    normalize_clients protocol (arr cs) =
        if includes client_protocols protocol then arr (parse_clients protocol cs) else arr cs
    normalize_clients protocol v = v

    -- `if (Array.isArray(settings.clients)) settings.clients = ...`
    abbrev set_clients : String → Value N → Fields N → Fields N
    unfolding with_prop normalize_clients
    set_clients protocol (arr cs) settings =
        with_prop "clients" (normalize_clients protocol (arr cs)) settings
    set_clients protocol v settings = settings

    unfoldable pub with_clients : String → Fields N → Fields N
    unfolding prop with_prop normalize_clients
    with_clients protocol settings = set_clients protocol (prop settings "clients") settings

    -- The settings and the stream that are sent; `none` is an error that is thrown.
    unfoldable pub wire_parts : InboundFormValues N → Option (Fields N × Option (Fields N))
    unfolding prune_fields with_clients strip_tls_cert_use_file drop_legacy_optional_empties
    wire_parts values = do
      let settings = with_clients values.protocol (prune_fields values.settings)
      stream ←
          maybe values.stream_settings (some none)
            (λ fs. strip_tls_cert_use_file (prune_fields fs) >>= λ s. some (some s))
      some (drop_legacy_optional_empties settings stream)

    unfoldable pub form_values_to_wire_payload : InboundFormValues N → Option (WireInboundPayload N)
    unfolding wire_parts normalize_sniffing
    form_values_to_wire_payload values = do
      (settings, stream) ← wire_parts values
      some (record {
        up = values.up;
        down = values.down;
        total = values.total;
        remark = values.remark;
        enable = values.enable;
        expiry_time = values.expiry_time;
        traffic_reset = values.traffic_reset;
        last_traffic_reset_time = values.last_traffic_reset_time;
        listen = values.listen;
        port = values.port;
        protocol = values.protocol;
        settings = web.stringify (obj settings);
        stream_settings = maybe stream "" (λ fs. web.stringify (obj fs));
        sniffing = web.stringify (obj (normalize_sniffing (some values.sniffing)));
        tag = values.tag;
        node_id = values.node_id;
      })
