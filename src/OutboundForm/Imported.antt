-- ===== src/OutboundForm/Imported.antt =====
-- A share link in the outbound form: what frontend/src/lib/xray/outbound-link-parser.ts makes of it,
-- read by frontend/src/lib/xray/outbound-form-adapter.ts.
use x_ui_glass.Shared.{String, ◌≡◌, refl, some}
use x_ui_glass.Json.{arr, nil, cons, field, end, str, obj, Fields}
use x_ui_glass.Platform.{Url, get_or}
use x_ui_glass.Coerce.{Runtime, as_port}
use x_ui_glass.LinkParser.{
  stream_of_params, parse_vless_link, parse_trojan_link, parse_url_link, decode_remark, port_of,
}
use x_ui_glass.OutboundForm.{
  OutboundSettings, raw_outbound_to_form_values, settings_from_wire, trojan_from_wire,
  vless_from_wire, or_none, reverse_sniffing_default, default_testseed,
}

module _ {N : Type 0} (rt : Runtime N) where
  open rt use {web}

  -- The port of a link, if the form takes it.
  abbrev form_port : Url → N
  form_port u = as_port rt (port_of web u) (web.number 443)

  -- The record of a link.
  abbrev link_record : String → String → Fields N → Url → Fields N
  link_record protocol security settings u = field "protocol" (str protocol) (
      field "tag" (str (decode_remark web u)) (
        field "settings" (obj settings)
          (field "streamSettings" (obj (stream_of_params web u.params security)) end)))

  abbrev trojan_record : Url → Fields N
  trojan_record u =
      let server : Fields N =
        field "address" (str u.hostname)
          (field "port" (port_of web u) (field "password" (str u.username) end)) in
      link_record "trojan" "tls" (field "servers" (arr (cons (obj server) nil)) end) u

  abbrev vless_record : Url → Fields N
  vless_record u =
      link_record "vless" "none"
        (field "address" (str u.hostname) (
          field "port" (port_of web u) (
            field "id" (str u.username) (
              field "flow" (str (get_or "flow" u.params ""))
                (field "encryption" (str (get_or "encryption" u.params "none")) end)))))
        u

  -- A URL that is read as a Trojan link opens in the form with its host, its port where the form
  -- takes it, its name, and, as the password, its user part as it stands in the URL: an escaped
  -- character stays escaped, so that this is not always the password that was meant.
  pub trojan_link-form :
      (link : String) (u : Url)
      → parse_url_link web link "trojan" ≡ some u
      → (fs : Fields N) × (parse_trojan_link web link ≡ some (obj fs))
        × ((raw_outbound_to_form_values rt fs).settings
            ≡ OutboundSettings.trojan
                (record { address = u.hostname; port = form_port u; password = u.username }))
        × ((raw_outbound_to_form_values rt fs).tag ≡ decode_remark web u)
  unfolding parse_trojan_link raw_outbound_to_form_values settings_from_wire trojan_from_wire
  trojan_link-form link u h = (trojan_record u, rw h refl, refl, refl)

  -- A VLESS link opens in the form with the host, the port, the user and the flow that it names, with
  -- an encryption that is never empty, and with no reverse proxy.
  pub vless_link-form :
      (link : String) (u : Url)
      → parse_url_link web link "vless" ≡ some u
      → (fs : Fields N) × (parse_vless_link web link ≡ some (obj fs))
        × ((raw_outbound_to_form_values rt fs).settings
            ≡ OutboundSettings.vless (record {
              address = u.hostname;
              port = form_port u;
              id = u.username;
              flow = get_or "flow" u.params "";
              encryption = or_none (get_or "encryption" u.params "none");
              reverse_tag = "";
              reverse_sniffing = reverse_sniffing_default;
              testpre = web.number 0;
              testseed = default_testseed rt;
            }))
        × ((raw_outbound_to_form_values rt fs).tag ≡ decode_remark web u)
  unfolding parse_vless_link raw_outbound_to_form_values settings_from_wire vless_from_wire
  vless_link-form link u h = (vless_record u, rw h refl, refl, refl)
