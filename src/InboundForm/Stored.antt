-- ===== src/InboundForm/Stored.antt =====
-- A stored inbound row in the form: `coerceJsonObject`, `coerceTrafficReset`,
-- `healStreamNetworkKey`, `synthesizeTlsCertUseFile` and `rawInboundToFormValues`.
use x_ui_glass.Shared.{
  String, Bool, true, false, not, ◌||◌, Option, none, some, List, [], ◌∷◌, if◌then◌else◌, is_empty,
  maybe, or_else, includes, trim, ◌>>=◌,
}
use x_ui_glass.Shared.Property.{lookup}
use x_ui_glass.Json.{
  Value, bool, str, arr, obj, Items, nil, cons, Fields, end, field, prop, with_prop,
}
use x_ui_glass.Platform.{Web, is_truthy, is_object}
use x_ui_glass.Coerce.{as_object, as_string, as_string_or}

abbrev traffic_resets : List String
traffic_resets = "never" ∷ "hourly" ∷ "daily" ∷ "weekly" ∷ "monthly" ∷ []

-- `NETWORK_SETTINGS_KEY`
abbrev pub network_settings_key : List (String × String)
network_settings_key =
    ("tcp", "tcpSettings")
    ∷ ("kcp", "kcpSettings")
    ∷ ("ws", "wsSettings")
    ∷ ("grpc", "grpcSettings")
    ∷ ("httpupgrade", "httpupgradeSettings")
    ∷ ("xhttp", "xhttpSettings")
    ∷ ("hysteria", "hysteriaSettings")
    ∷ []

-- `rawInboundToFormValues` reads a row whose fields may be missing.
pub record InboundRow (N : Type 0) : Type 0 where
  pub port : Option N
  pub listen : Option String
  pub protocol : Option String
  pub tag : Option String
  pub settings : Value N
  pub stream_settings : Value N
  pub sniffing : Value N
  pub up : Option N
  pub down : Option N
  pub total : Option N
  pub remark : Option String
  pub enable : Option Bool
  pub expiry_time : Option N
  pub traffic_reset : Option String
  pub last_traffic_reset_time : Option N
  pub node_id : Option N

-- `InboundFormValues`, the nested settings as values.
pub record InboundFormValues (N : Type 0) : Type 0 where
  pub remark : String
  pub enable : Bool
  pub port : N
  pub listen : String
  pub tag : String
  pub expiry_time : N
  pub sniffing : Fields N
  pub stream_settings : Option (Fields N)
  pub up : N
  pub down : N
  pub total : N
  pub traffic_reset : String
  pub last_traffic_reset_time : N
  pub node_id : Option N
  pub protocol : String
  pub settings : Fields N

unfoldable pub coerce_traffic_reset : Option String → String
unfolding includes
coerce_traffic_reset none = "never"
coerce_traffic_reset (some v) = if includes traffic_resets v then v else "never"

module _ {N : Type 0} where
  -- The certificates, if they are a list.
  abbrev pub list_of : Value N → Option (Items N)
  list_of (arr vs) = some vs
  list_of v = none

  unfoldable pub tls_certs : Fields N → Option (Items N)
  unfolding prop as_object
  tls_certs stream = list_of (prop (as_object (prop stream "tlsSettings")) "certificates")

  -- `tls.certificates`, changed in place
  unfoldable pub with_certs : Items N → Fields N → Fields N
  unfolding prop with_prop as_object
  with_certs certs stream =
      with_prop "tlsSettings"
        (obj (with_prop "certificates" (arr certs) (as_object (prop stream "tlsSettings")))) stream

  -- `Array.isArray(v) && v.length > 0`
  abbrev pub is_filled : Value N → Bool
  is_filled (arr (cons v vs)) = true
  is_filled v = false

  abbrev pub is_boolean : Value N → Bool
  is_boolean (bool b) = true
  is_boolean v = false

  -- `stream[key] == null || typeof stream[key] !== 'object'`; `network` is no name that every object
  -- inherits.
  unfoldable pub heal_stream_network_key : Fields N → Fields N
  unfolding prop with_prop lookup is_object as_string_or
  heal_stream_network_key stream =
      maybe (lookup (as_string (prop stream "network")) network_settings_key) stream
        (λ key. if is_object (prop stream key) then stream else with_prop key (obj end) stream)

module _ {N : Type 0} (web : Web N) where
  unfoldable pub coerce_json_object : Value N → Fields N
  unfolding trim as_object
  coerce_json_object (obj fs) = fs
  coerce_json_object (str s) =
      if is_empty (trim s) then end else maybe (web.parse_json (trim s)) end as_object
  coerce_json_object v = end

  unfoldable pub use_file_of : Fields N → Bool
  unfolding prop is_truthy
  use_file_of c =
      let has_file = is_truthy web (prop c "certificateFile") || is_truthy web (prop c "keyFile") in
      let has_inline = is_filled (prop c "certificate") || is_filled (prop c "key") in
      has_file || not has_inline

  -- One round of the loop. A property of a primitive value cannot be set, and that is an error; one
  -- that an array gets is not seen again.
  unfoldable pub synthesize_cert : Value N → Option (Value N)
  unfolding prop with_prop use_file_of
  synthesize_cert (obj c) =
      if is_boolean (prop c "useFile")
      then some (obj c)
      else some (obj (with_prop "useFile" (bool (use_file_of c)) c))
  synthesize_cert (arr vs) = some (arr vs)
  synthesize_cert v = none

  unfoldable pub synthesize_certs : Items N → Option (Items N)
  unfolding synthesize_cert
  synthesize_certs nil = some nil
  synthesize_certs (cons c cs) = do
    c' ← synthesize_cert c
    cs' ← synthesize_certs cs
    some (cons c' cs')

  -- `none` is an error that is thrown.
  unfoldable pub synthesize_tls_cert_use_file : Fields N → Option (Fields N)
  unfolding tls_certs with_certs synthesize_certs
  synthesize_tls_cert_use_file stream =
      maybe (tls_certs stream) (some stream)
        (λ certs. synthesize_certs certs >>= λ certs'. some (with_certs certs' stream))

  -- The stream of a row: none for an object without a property.
  unfoldable pub stream_of_row : Fields N → Option (Option (Fields N))
  unfolding heal_stream_network_key synthesize_tls_cert_use_file
  stream_of_row end = some none
  stream_of_row (field k v fs) = do
    stream ← synthesize_tls_cert_use_file (heal_stream_network_key (field k v fs))
    some (some stream)

  unfoldable pub raw_inbound_to_form_values : InboundRow N → Option (InboundFormValues N)
  unfolding coerce_json_object stream_of_row coerce_traffic_reset
  raw_inbound_to_form_values row = do
    stream ← stream_of_row (coerce_json_object row.stream_settings)
    let protocol = or_else row.protocol ""
    some (record {
      remark = or_else row.remark "";
      enable = or_else row.enable true;
      port = or_else row.port (web.number 0);
      listen = or_else row.listen "";
      tag = or_else row.tag "";
      expiry_time = or_else row.expiry_time (web.number 0);
      sniffing = coerce_json_object row.sniffing;
      stream_settings = stream;
      up = or_else row.up (web.number 0);
      down = or_else row.down (web.number 0);
      total = or_else row.total (web.number 0);
      traffic_reset = coerce_traffic_reset row.traffic_reset;
      last_traffic_reset_time = or_else row.last_traffic_reset_time (web.number 0);
      node_id = row.node_id;
      protocol = if is_empty protocol then "vless" else protocol;
      settings = coerce_json_object row.settings;
    })
