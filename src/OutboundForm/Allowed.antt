-- ===== src/OutboundForm/Allowed.antt =====
-- What frontend/src/schemas/forms/outbound-form.ts accepts as the settings of an outbound, and the
-- part of it that the adapter leaves to the form. The bounds of zod on safe integers are not here.
use x_ui_glass.Shared.{
  String, Bool, true, not, ◌&&◌, List, [], ◌∷◌, is_some, is_empty, includes, all,
}
use x_ui_glass.Coerce.{Runtime, is_port, is_between, is_number, is_positive_integer}
use x_ui_glass.OutboundForm.{
  OutboundSettings, WireguardFormPeer, Noise, FinalRule, DnsRuleForm, vmess_securities,
  wireguard_strategies, freedom_strategies, dns_actions,
}

-- `SSMethodSchema`
abbrev ss_methods : List String
ss_methods =
    "aes-256-gcm" ∷ "chacha20-poly1305" ∷ "chacha20-ietf-poly1305" ∷ "xchacha20-ietf-poly1305"
    ∷ "2022-blake3-aes-128-gcm" ∷ "2022-blake3-aes-256-gcm" ∷ "2022-blake3-chacha20-poly1305" ∷ []

-- `FreedomNoiseSchema`
abbrev pub allows_noise : Noise → Bool
allows_noise n =
    includes ("rand" ∷ "str" ∷ "base64" ∷ "hex" ∷ []) n.type
    && includes ("ip" ∷ "ipv4" ∷ "ipv6" ∷ []) n.apply_to

-- `FreedomFinalRuleFormSchema`
abbrev pub allows_final_rule : FinalRule → Bool
allows_final_rule r = includes ("allow" ∷ "block" ∷ []) r.action

module _ {N : Type 0} (rt : Runtime N) where
  -- `z.number().int().min(0)`
  abbrev pub is_natural : N → Bool
  is_natural n = is_some (rt.nat_of n)

  -- `WireguardOutboundFormPeerSchema`
  abbrev pub allows_peer : WireguardFormPeer N → Bool
  allows_peer p = is_natural p.keep_alive

  -- `DnsRuleFormSchema`
  abbrev pub allows_dns_rule : DnsRuleForm N → Bool
  allows_dns_rule r = includes dns_actions r.action && is_between rt 0 65535 r.r_code

  -- `OutboundFormSettingsSchema`
  unfoldable pub allows : OutboundSettings N → Bool
  unfolding includes all
  allows (OutboundSettings.vmess s) =
      is_port rt s.port && includes ("" ∷ vmess_securities) s.security
  allows (OutboundSettings.vless s) =
      is_port rt s.port
      && not (is_empty s.encryption)
      && is_natural s.testpre
      && all (is_positive_integer rt) s.testseed
  allows (OutboundSettings.trojan s) = is_port rt s.port
  allows (OutboundSettings.shadowsocks s) =
      is_port rt s.port && includes ss_methods s.method && is_between rt 1 2 s.uot_version
  allows (OutboundSettings.socks s) = is_port rt s.port
  allows (OutboundSettings.http s) = is_port rt s.port
  allows (OutboundSettings.wireguard s) =
      is_natural s.mtu
      && is_natural s.workers
      && includes ("" ∷ wireguard_strategies) s.domain_strategy
      && all allows_peer s.peers
  allows (OutboundSettings.hysteria s) = is_port rt s.port && is_number rt s.version 2
  allows (OutboundSettings.freedom s) =
      includes ("" ∷ freedom_strategies) s.domain_strategy
      && is_natural s.user_level
      && is_between rt 0 2 s.proxy_protocol
      && all allows_noise s.noises
      && all allows_final_rule s.final_rules
  allows (OutboundSettings.blackhole type) = includes ("" ∷ "none" ∷ "http" ∷ []) type
  allows (OutboundSettings.dns s) =
      includes ("" ∷ "udp" ∷ "tcp" ∷ []) s.rewrite_network
      && is_between rt 0 65535 s.rewrite_port
      && is_natural s.user_level
      && all allows_dns_rule s.rules
  allows (OutboundSettings.loopback tag) = true

  -- The same of the fields that the adapter takes from the wire as they are.
  unfoldable pub allows_unchecked : OutboundSettings N → Bool
  unfolding includes all
  allows_unchecked (OutboundSettings.vless s) = is_natural s.testpre
  allows_unchecked (OutboundSettings.shadowsocks s) =
      includes ss_methods s.method && is_between rt 1 2 s.uot_version
  allows_unchecked (OutboundSettings.wireguard s) =
      is_natural s.mtu && is_natural s.workers && all allows_peer s.peers
  allows_unchecked (OutboundSettings.freedom s) =
      is_natural s.user_level && all allows_noise s.noises
  allows_unchecked (OutboundSettings.dns s) =
      is_natural s.user_level && all (λ r. is_between rt 0 65535 r.r_code) s.rules
  allows_unchecked _ = true
