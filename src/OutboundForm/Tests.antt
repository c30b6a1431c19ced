-- ===== src/OutboundForm/Tests.antt =====
-- The outbound form on a small platform.
use x_ui_glass.Shared.{
  ℕ, ◌≡◌, refl, true, false, some, if◌then◌else◌, arith, ◌&&◌, includes, ◌||◌, not, str_eq,
}
use x_ui_glass.Shared.Property.{lookup}
use x_ui_glass.Json.{
  undefined, bool, num, str, obj, arr, nil, cons, Fields, end, field, prop, entries,
}
use x_ui_glass.Platform.{Url, is_text, get_or}
use x_ui_glass.Coerce.{as_port}
use x_ui_glass.Coerce.Sample.{sample_web, sample_runtime, sample_url}
use x_ui_glass.LinkParser.{
  parse_url_link, parse_trojan_link, parse_vless_link, decode_remark, port_of,
}
use x_ui_glass.OutboundForm.{
  OutboundSettings, OutboundValues, MuxForm, raw_outbound_to_form_values,
  form_values_to_wire_payload, mux_allowed, strip_xhttp, is_true, hydrate_stream_form,
  strip_ui_only_stream_fields, overlay, xmux_defaults, or_none, reverse_sniffing_default,
  default_testseed,
}
use x_ui_glass.OutboundForm.Allowed.{allows}
use x_ui_glass.OutboundForm.Recover.{WireLaws}
use x_ui_glass.OutboundForm.Payload.{no_mux, raw_outbound-form_values}
use x_ui_glass.OutboundForm.StreamFields.{prop-strip_xhttp, prop-strip-hydrate}
use x_ui_glass.OutboundForm.Imported.{trojan_link-form, vless_link-form}

wire_laws : WireLaws sample_runtime
wire_laws = record { nat_is_finite = λ n k h. refl; zero_is_falsy = λ n h. ground arith }

-- A record with a port out of range.
abbrev stored : Fields ℕ
stored =
    field "protocol" (str "hysteria")
      (field "settings" (obj (field "address" (str "a") (field "port" (num 70000) end))) end)

-- A record with a method and a version that no schema knows.
abbrev unknown_method : Fields ℕ
unknown_method = field "protocol" (str "shadowsocks") (
    field "settings"
      (obj (
        field "servers"
          (arr (
            cons
              (obj (
                field "method" (str "rc4-md5")
                  (field "UoTVersion" (num 7) (field "port" (num 70000) end))))
              nil))
          end))
      end)

method_kept :
    (raw_outbound_to_form_values sample_runtime unknown_method).settings
    ≡ OutboundSettings.shadowsocks (record {
      address = "";
      port = 443;
      password = "";
      method = "rc4-md5";
      uot = false;
      uot_version = 7;
    })
unfolding raw_outbound_to_form_values
method_kept = refl

method_refused :
    allows sample_runtime (raw_outbound_to_form_values sample_runtime unknown_method).settings
    ≡ false
unfolding raw_outbound_to_form_values allows
method_refused = refl

stored_port :
    (raw_outbound_to_form_values sample_runtime stored).settings
    ≡ OutboundSettings.hysteria (record { address = "a"; port = 443; version = 2 })
unfolding raw_outbound_to_form_values
stored_port = refl

abbrev mux : MuxForm ℕ
mux = record { enabled = true; concurrency = 4; xudp_concurrency = 8; xudp_proxy_udp443 = "allow" }

abbrev values : OutboundValues ℕ
values = record {
  settings = OutboundSettings.trojan (record { address = "h"; port = 8443; password = "p" });
  tag = "t";
  send_through = "";
  mux = some mux;
  stream = some (field "network" (str "tcp") end);
}

raw_outbound-form_values_example :
    let back =
      raw_outbound_to_form_values sample_runtime
        (form_values_to_wire_payload sample_runtime values) in
    (back.settings ≡ values.settings)
    × (back.tag ≡ values.tag)
    × (back.send_through ≡ values.send_through)
    × (back.mux ≡ some (if mux.enabled && mux_allowed values then mux else no_mux sample_runtime))
unfolding includes
raw_outbound-form_values_example =
    raw_outbound-form_values sample_runtime wire_laws values mux refl tt refl (refl, refl, refl)

-- The settings of an XHTTP transport with the switch on, and with it off.
abbrev switched_off : Fields ℕ
switched_off =
    field "path" (str "/")
      (field "host" (str "") (field "enableXmux" (bool false) (field "xmux" (obj end) end)))

prop-strip_xhttp_example : prop (strip_xhttp switched_off) "xmux" ≡ (
    if str_eq "xmux" "enableXmux"
      || (str_eq "xmux" "xmux" && not (is_true (prop switched_off "enableXmux")))
      || str_eq "xmux" "__proto__"
      || is_text (prop switched_off "xmux") ""
    then undefined
    else prop switched_off "xmux")
unfolding lookup entries
prop-strip_xhttp_example = prop-strip_xhttp "xmux" switched_off (refl, (refl, (refl, (refl, tt))))

abbrev xmux : Fields ℕ
xmux = field "maxConcurrency" (str "1") end

abbrev xhttp : Fields ℕ
xhttp = field "path" (str "/") (field "xmux" (obj xmux) end)

abbrev stream : Fields ℕ
stream = field "network" (str "xhttp") (field "xhttpSettings" (obj xhttp) end)

prop-strip-hydrate_example :
    (settings : Fields ℕ) × (prop
        (strip_ui_only_stream_fields (hydrate_stream_form sample_runtime stream))
        "xhttpSettings"
      ≡ obj settings)
    × (prop settings "enableXmux" ≡ undefined)
    × (prop settings "xmux" ≡ obj (overlay (xmux_defaults sample_runtime) xmux))
unfolding lookup entries prop
prop-strip-hydrate_example =
    prop-strip-hydrate sample_runtime stream xhttp xmux (refl, (refl, tt)) refl refl

trojan_link-form_example :
    (fs : Fields ℕ) × (parse_trojan_link sample_web "trojan://link" ≡ some (obj fs))
    × ((raw_outbound_to_form_values sample_runtime fs).settings
        ≡ OutboundSettings.trojan (record {
          address = "example.com";
          port = as_port sample_runtime (port_of sample_web sample_url) 443;
          password = "secret";
        }))
    × ((raw_outbound_to_form_values sample_runtime fs).tag ≡ decode_remark sample_web sample_url)
unfolding parse_url_link
trojan_link-form_example = trojan_link-form sample_runtime "trojan://link" sample_url refl

abbrev vless_url : Url
vless_url = record sample_url { protocol = "vless:" }

vless_link-form_example :
    (fs : Fields ℕ) × (parse_vless_link sample_web "vless://link" ≡ some (obj fs))
    × ((raw_outbound_to_form_values sample_runtime fs).settings
        ≡ OutboundSettings.vless (record {
          address = "example.com";
          port = as_port sample_runtime (port_of sample_web vless_url) 443;
          id = "secret";
          flow = get_or "flow" vless_url.params "";
          encryption = or_none (get_or "encryption" vless_url.params "none");
          reverse_tag = "";
          reverse_sniffing = reverse_sniffing_default;
          testpre = 0;
          testseed = default_testseed sample_runtime;
        }))
    × ((raw_outbound_to_form_values sample_runtime fs).tag ≡ decode_remark sample_web vless_url)
unfolding parse_url_link
vless_link-form_example = vless_link-form sample_runtime "vless://link" vless_url refl
