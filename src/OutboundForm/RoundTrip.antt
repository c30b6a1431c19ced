-- ===== src/OutboundForm/RoundTrip.antt =====
-- Settings that are written to the wire and read again.
use x_ui_glass.Shared.{String, true, ◌≡◌, ap, is_empty, includes, arith, eq_iff}
use x_ui_glass.Coerce.{Runtime, as_string-or_undefined}
use x_ui_glass.OutboundForm.{
  settings_from_wire, settings_to_wire, protocol_of, OutboundSettings, VmessForm, TrojanForm,
  ShadowsocksForm, SimpleAuth, HysteriaForm, vmess_to_wire, vmess_from_wire, trojan_to_wire,
  trojan_from_wire, shadowsocks_to_wire, shadowsocks_from_wire, simple_auth_to_wire,
  simple_auth_from_wire, hysteria_to_wire, hysteria_from_wire, blackhole_to_wire,
  blackhole_from_wire, loopback_to_wire, loopback_from_wire,
}
use x_ui_glass.OutboundForm.Ranges.{IsPort, IsInRange}
use x_ui_glass.OutboundForm.Recover.{WireLaws, IsRecoverable, as_port_kept}
use x_ui_glass.OutboundForm.KeptLists.{freedom_kept, wireguard_kept}
use x_ui_glass.OutboundForm.KeptDns.{dns_kept}
use x_ui_glass.OutboundForm.KeptVless.{vless_kept}

module _ {N : Type 0} (rt : Runtime N) (laws : WireLaws rt) where
  open rt use {web}

  vmess_kept :
      (s : VmessForm N)
      → IsInRange rt (OutboundSettings.vmess s)
      → vmess_from_wire rt (vmess_to_wire s) ≡ s
  unfolding vmess_from_wire vmess_to_wire
  vmess_kept s h = ground (arith, as_port_kept rt laws s.port (web.number 443))

  trojan_kept : (s : TrojanForm N) → IsPort rt s.port → trojan_from_wire rt (trojan_to_wire s) ≡ s
  unfolding trojan_from_wire trojan_to_wire
  trojan_kept s h = ground (arith, as_port_kept rt laws s.port (web.number 443))

  shadowsocks_kept :
      (s : ShadowsocksForm N)
      → IsPort rt s.port
      → web.is_finite s.uot_version ≡ true
      → shadowsocks_from_wire rt (shadowsocks_to_wire s) ≡ s
  unfolding shadowsocks_from_wire shadowsocks_to_wire
  shadowsocks_kept s h f = ground (arith, as_port_kept rt laws s.port (web.number 443))

  simple_auth_kept :
      (s : SimpleAuth N) (d : N)
      → IsPort rt s.port
      → (is_empty s.user ≡ true → s.pass ≡ "")
      → simple_auth_from_wire rt (simple_auth_to_wire s) d ≡ s
  unfolding simple_auth_from_wire simple_auth_to_wire
  simple_auth_kept s d h p = ground (arith, as_port_kept rt laws s.port d, eq_iff s.user "")

  hysteria_kept :
      (s : HysteriaForm N)
      → IsPort rt s.port
      → s.version ≡ web.number 2
      → hysteria_from_wire rt (hysteria_to_wire s) ≡ s
  unfolding hysteria_from_wire hysteria_to_wire
  hysteria_kept s h v = ground (arith, as_port_kept rt laws s.port (web.number 443))

  blackhole_kept :
      (t : String)
      → IsInRange rt (OutboundSettings.blackhole t)
      → blackhole_from_wire (blackhole_to_wire {N = N} t) ≡ t
  unfolding blackhole_from_wire blackhole_to_wire includes
  blackhole_kept t h = ground (
    arith,
    eq_iff t "",
    eq_iff "" t,
    eq_iff "none" t,
    eq_iff t "none",
    eq_iff "http" t,
    eq_iff t "http",
  )

  loopback_kept : (t : String) → loopback_from_wire (loopback_to_wire {N = N} t) ≡ t
  unfolding loopback_from_wire loopback_to_wire
  loopback_kept t = as_string-or_undefined N t

  -- Settings in range that the wire can keep are read from it as they were written.
  pub settings_kept :
      (s : OutboundSettings N)
      → IsInRange rt s
      → IsRecoverable rt s
      → settings_from_wire rt (protocol_of s) (settings_to_wire rt s) ≡ s
  unfolding settings_from_wire protocol_of settings_to_wire
  settings_kept (OutboundSettings.vmess s) v h = ap OutboundSettings.vmess (vmess_kept s v)
  settings_kept (OutboundSettings.vless s) v h =
      ap OutboundSettings.vless (vless_kept rt laws s v h)
  settings_kept (OutboundSettings.trojan s) v h = ap OutboundSettings.trojan (trojan_kept s v)
  settings_kept (OutboundSettings.shadowsocks s) v h =
      ap OutboundSettings.shadowsocks (shadowsocks_kept s v h)
  settings_kept (OutboundSettings.socks s) v h =
      ap OutboundSettings.socks (simple_auth_kept s (web.number 1080) v h)
  settings_kept (OutboundSettings.http s) v h =
      ap OutboundSettings.http (simple_auth_kept s (web.number 8080) v h)
  settings_kept (OutboundSettings.wireguard s) v h =
      ap OutboundSettings.wireguard (wireguard_kept rt laws s v h)
  settings_kept (OutboundSettings.hysteria s) v h =
      ap OutboundSettings.hysteria (hysteria_kept s v.0 v.1)
  settings_kept (OutboundSettings.freedom s) v h =
      ap OutboundSettings.freedom (freedom_kept rt laws s v h)
  settings_kept (OutboundSettings.blackhole t) v h =
      ap OutboundSettings.blackhole (blackhole_kept t v)
  settings_kept (OutboundSettings.dns s) v h = ap OutboundSettings.dns (dns_kept rt laws s v h)
  settings_kept (OutboundSettings.loopback t) v h = ap OutboundSettings.loopback (loopback_kept t)
