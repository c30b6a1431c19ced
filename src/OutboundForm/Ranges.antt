-- ===== src/OutboundForm/Ranges.antt =====
-- The ranges that the readers of the adapter keep the fields of the form in, and lists that they
-- never leave empty. What the form's schema asks for is in `Allowed`.
use x_ui_glass.Shared.{
  ℕ, String, true, false, ◌||◌, ◌≡◌, refl, ◌≢◌, ◌≤◌, some, List, [], ◌∷◌, map, if◌then◌else◌,
  is_empty, str_eq, includes, arith, Bool-cases, inl, inr, All, eq_iff,
}
use x_ui_glass.Json.{Value, prop}
use x_ui_glass.Coerce.{Runtime, as_object, as_string_or, is_port}
use x_ui_glass.OutboundForm.{
  OutboundSettings, or_none, VlessForm, WireguardFormPeer, FinalRule, DnsRuleForm, one_of,
  vmess_securities, wireguard_strategies, freedom_strategies, dns_actions, is_testseed,
  peer_from_wire, final_rule_from_wire, or_blocked, dns_rule_from_wire, default_testseed,
}

module _ {N : Type 0} (rt : Runtime N) where
  open rt use {web}

  -- A natural number that the program writes is the number that it is.
  pub record NumberLaws : Type 0 where
    pub nat_of_number : (k : ℕ) → k ≤ 65535 → rt.nat_of (web.number k) ≡ some k

  abbrev pub IsPort : N → Type 0
  IsPort n = is_port rt n ≡ true

  -- One of the names, or none.
  abbrev pub IsChoice : List String → String → Type 0
  IsChoice allowed s = includes ("" ∷ allowed) s ≡ true

  abbrev pub PeerIsInRange : WireguardFormPeer N → Type 0
  PeerIsInRange p = p.allowed_ips ≢ []

  abbrev pub RuleIsInRange : FinalRule → Type 0
  RuleIsInRange r = includes ("allow" ∷ "block" ∷ []) r.action ≡ true

  abbrev pub DnsRuleIsInRange : DnsRuleForm N → Type 0
  DnsRuleIsInRange r = includes dns_actions r.action ≡ true

  abbrev pub VlessIsInRange : VlessForm N → Type 0
  VlessIsInRange s =
      IsPort s.port
      × (is_empty s.encryption ≡ false)
      × (is_testseed rt s.testseed ≡ true)
      × (s.reverse_sniffing.dest_override ≢ [])

  abbrev pub IsInRange : OutboundSettings N → Type 0
  IsInRange (OutboundSettings.vmess s) =
      IsPort s.port × (includes vmess_securities s.security ≡ true)
  IsInRange (OutboundSettings.vless s) = VlessIsInRange s
  IsInRange (OutboundSettings.trojan s) = IsPort s.port
  IsInRange (OutboundSettings.shadowsocks s) = IsPort s.port
  IsInRange (OutboundSettings.socks s) = IsPort s.port
  IsInRange (OutboundSettings.http s) = IsPort s.port
  IsInRange (OutboundSettings.wireguard s) =
      IsChoice wireguard_strategies s.domain_strategy × All PeerIsInRange s.peers
  IsInRange (OutboundSettings.hysteria s) = IsPort s.port × (s.version ≡ web.number 2)
  IsInRange (OutboundSettings.freedom s) =
      IsChoice freedom_strategies s.domain_strategy
      × ((k : ℕ) × (rt.nat_of s.proxy_protocol ≡ some k) × (k ≤ 2))
      × All RuleIsInRange s.final_rules
  IsInRange (OutboundSettings.blackhole type) = IsChoice ("none" ∷ "http" ∷ []) type
  IsInRange (OutboundSettings.dns s) =
      IsPort s.rewrite_port
      × IsChoice ("udp" ∷ "tcp" ∷ []) s.rewrite_network
      × All DnsRuleIsInRange s.rules
  IsInRange (OutboundSettings.loopback tag) = Unit

  pub one_of_allowed :
      (allowed : List String) (s d : String)
      → includes allowed d ≡ true
      → includes allowed (one_of allowed s d) ≡ true
  one_of_allowed allowed s d h = ground arith

  pub IsChoice-allowed :
      (allowed : List String) (s : String) → IsChoice allowed (one_of allowed s "")
  unfolding includes
  IsChoice-allowed allowed s = elim (Bool-cases (includes allowed s)) [
    | inl e ↦ rw e (ground arith)
    | inr e ↦ rw e refl
  ]

  -- Four positive integers are read, or the default.
  pub or_default_testseed :
      (saved : List (Value N))
      → is_testseed rt (default_testseed rt) ≡ true
      → is_testseed rt (if is_testseed rt saved then saved else default_testseed rt) ≡ true
  or_default_testseed saved h = ground arith

  pub peer-PeerIsInRange : (vs : List (Value N)) → All PeerIsInRange (map (peer_from_wire rt) vs)
  unfolding peer_from_wire
  peer-PeerIsInRange [] = tt
  peer-PeerIsInRange (v ∷ vs) = (ground arith, peer-PeerIsInRange vs)

  allow_or_block :
      (s : String)
      → includes ("allow" ∷ "block" ∷ []) (if str_eq s "allow" then "allow" else "block") ≡ true
  unfolding includes
  allow_or_block s = elim (Bool-cases (str_eq s "allow")) [ inl e ↦ rw e refl | inr e ↦ rw e refl ]

  pub rules-RuleIsInRange : (vs : List (Value N)) → All RuleIsInRange (map final_rule_from_wire vs)
  unfolding final_rule_from_wire includes
  rules-RuleIsInRange [] = tt
  rules-RuleIsInRange (v ∷ vs) =
      (allow_or_block (as_string_or (prop (as_object v) "action") "block"), rules-RuleIsInRange vs)

  pub or_blocked-RuleIsInRange :
      (rs : List FinalRule) (ips : List String)
      → All RuleIsInRange rs
      → All RuleIsInRange (or_blocked rs ips)
  unfolding includes
  or_blocked-RuleIsInRange (r ∷ rs) ips h = h
  or_blocked-RuleIsInRange [] [] h = tt
  or_blocked-RuleIsInRange [] (ip ∷ ips) h = (refl, tt)

  pub dns_rules-DnsRuleIsInRange :
      (vs : List (Value N)) → All DnsRuleIsInRange (map (dns_rule_from_wire rt) vs)
  unfolding dns_rule_from_wire includes
  dns_rules-DnsRuleIsInRange [] = tt
  dns_rules-DnsRuleIsInRange (v ∷ vs) = (
    one_of_allowed dns_actions (as_string_or (prop (as_object v) "action") "direct") "direct" refl,
    dns_rules-DnsRuleIsInRange vs,
  )

  pub encryption_given : (s : String) → is_empty (or_none s) ≡ false
  encryption_given s = elim (Bool-cases (is_empty s)) [ inl e ↦ rw e refl | inr e ↦ rw e e ]

  pub pair_allowed :
      (a b t : String) → IsChoice (a ∷ b ∷ []) (if str_eq t a || str_eq t b then t else "")
  unfolding includes
  pair_allowed a b t = elim (Bool-cases (str_eq t a || str_eq t b)) [
    | inl e ↦ rw e (ground (arith, eq_iff t a, eq_iff t b, eq_iff a t, eq_iff b t))
    | inr e ↦ rw e refl
  ]
