-- ===== src/OutboundForm/Accepted.antt =====
-- The ranges of the adapter against those of the form's schema.
use x_ui_glass.Shared.{String, true, ◌≡◌, refl, List, [], ◌∷◌, includes, all, arith, All}
use x_ui_glass.Json.{Value}
use x_ui_glass.Coerce.{Runtime, is_between, is_positive_integer}
use x_ui_glass.OutboundForm.{
  OutboundSettings, FinalRule, DnsRuleForm, vmess_securities, is_testseed,
}
use x_ui_glass.OutboundForm.Allowed.{allows, allows_unchecked, allows_final_rule, allows_dns_rule}
use x_ui_glass.OutboundForm.Ranges.{NumberLaws, IsPort, IsInRange, RuleIsInRange, DnsRuleIsInRange}

module _ {N : Type 0} (rt : Runtime N) (laws : NumberLaws rt) where
  open rt use {web}

  includes-none :
      (xs : List String) (s : String) → includes xs s ≡ true → includes ("" ∷ xs) s ≡ true
  unfolding includes
  includes-none xs s h = ground (arith, h)

  all_positive :
      (seed : List (Value N))
      → is_testseed rt seed ≡ true
      → all (is_positive_integer rt) seed ≡ true
  unfolding is_testseed
  all_positive seed h = ground (arith, h)

  all_final_rules :
      (rs : List FinalRule) → All (RuleIsInRange rt) rs → all allows_final_rule rs ≡ true
  unfolding all
  all_final_rules [] h = refl
  all_final_rules (r ∷ rs) (h, hs) = rw (h, all_final_rules rs hs) refl

  all_dns_rules :
      (rs : List (DnsRuleForm N))
      → All (DnsRuleIsInRange rt) rs
      → all (allows_dns_rule rt) rs ≡ all (λ r. is_between rt 0 65535 r.r_code) rs
  unfolding all
  all_dns_rules [] h = refl
  all_dns_rules (r ∷ rs) (h, hs) = rw (h, all_dns_rules rs hs) refl

  port_between : (n : N) → IsPort rt n → is_between rt 0 65535 n ≡ true
  port_between n h = ground (arith, h)

  -- Settings whose checked fields are in range are accepted if the other fields are.
  pub allows-IsInRange :
      (s : OutboundSettings N) → IsInRange rt s → allows rt s ≡ allows_unchecked rt s
  unfolding allows allows_unchecked
  allows-IsInRange (OutboundSettings.vmess s) (p, c) =
      rw (p, includes-none vmess_securities s.security c) refl
  allows-IsInRange (OutboundSettings.vless s) (p, e, t, _) =
      rw (p, e, all_positive s.testseed t) (ground arith)
  allows-IsInRange (OutboundSettings.trojan s) p = p
  allows-IsInRange (OutboundSettings.shadowsocks s) p = rw p refl
  allows-IsInRange (OutboundSettings.socks s) p = p
  allows-IsInRange (OutboundSettings.http s) p = p
  allows-IsInRange (OutboundSettings.wireguard s) (c, _) = rw c (ground arith)
  allows-IsInRange (OutboundSettings.hysteria s) (p, v) =
      rw (p, v, laws.nat_of_number 2 (omega arith)) refl
  allows-IsInRange (OutboundSettings.freedom s) (c, (k, e, le), rules) =
      let in_range : is_between rt 0 2 s.proxy_protocol ≡ true = rw e (ground (arith, le)) in
      rw (c, in_range, all_final_rules s.final_rules rules) (ground arith)
  allows-IsInRange (OutboundSettings.blackhole type) c = c
  allows-IsInRange (OutboundSettings.dns s) (p, c, rules) =
      rw (c, port_between s.rewrite_port p, all_dns_rules s.rules rules) (ground arith)
  allows-IsInRange (OutboundSettings.loopback tag) h = refl
