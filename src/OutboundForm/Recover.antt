-- ===== src/OutboundForm/Recover.antt =====
-- Which settings the wire keeps: a form's settings that are written and read again.
use x_ui_glass.Shared.{
  ℕ, true, false, not, ◌||◌, ◌≡◌, ◌⊎◌, some, [], map, if◌then◌else◌, is_empty, str_eq, arith, inl,
  inr, All, Option-cases, join,
}
use x_ui_glass.Json.{Value, num}
use x_ui_glass.Coerce.{Runtime, as_port, as_port-num}
use x_ui_glass.OutboundForm.{
  OutboundSettings, VlessForm, WireguardForm, WireguardFormPeer, FreedomForm, Fragment, FinalRule,
  default_testseed, reverse_sniffing_default, no_fragment, split_texts, reserved_to_wire,
  reverse_sniffing_to_wire, ReverseSniffing,
}
use x_ui_glass.OutboundForm.Ranges.{IsPort}

-- A fragment is empty, or has packets and one of the other three.
abbrev pub FragmentRecoverable : Fragment → Type 0
FragmentRecoverable f =
    (f ≡ no_fragment)
    ⊎ ((is_empty f.packets ≡ false)
        × ((not (is_empty f.length) || not (is_empty f.interval) || not (is_empty f.max_split))
            ≡ true))

-- Only a blocking rule has a delay.
abbrev pub RuleRecoverable : FinalRule → Type 0
RuleRecoverable r = (r.action ≡ "block") ⊎ ((r.action ≡ "allow") × (r.block_delay ≡ ""))

module _ {N : Type 0} (rt : Runtime N) where
  open rt use {web}

  pub record WireLaws : Type 0 where
    -- A natural number is finite.
    pub nat_is_finite : (n : N) (k : ℕ) → rt.nat_of n ≡ some k → web.is_finite n ≡ true
    -- The number 0 counts as none.
    pub zero_is_falsy : (n : N) → rt.nat_of n ≡ some 0 → web.is_nonzero n ≡ false

  -- A number that is written where it is not 0, and that is `d` where nothing is written.
  abbrev pub KeepsNumber : N → N → Type 0
  KeepsNumber n d = (web.is_finite n ≡ true) × (web.is_nonzero n ≡ false → n ≡ d)

  -- Its text tells whether the sniffing of a reverse proxy is the default one.
  abbrev pub TextTells : ReverseSniffing → Type 0
  TextTells s =
      web.stringify (Value.obj (reverse_sniffing_to_wire s))
        ≡ web.stringify (Value.obj (reverse_sniffing_to_wire reverse_sniffing_default))
      → s ≡ reverse_sniffing_default

  abbrev pub VlessRecoverable : VlessForm N → Type 0
  VlessRecoverable s =
      (is_empty s.reverse_tag ≡ true → s.reverse_sniffing ≡ reverse_sniffing_default)
      × (str_eq s.flow "xtls-rprx-vision" ≡ false
          → (s.testpre ≡ web.number 0) × (s.testseed ≡ default_testseed rt))
      × (web.is_finite s.testpre ≡ true)
      × (web.is_positive s.testpre ≡ false → s.testpre ≡ web.number 0)
      × TextTells s.reverse_sniffing

  abbrev pub FreedomRecoverable : FreedomForm N → Type 0
  FreedomRecoverable s =
      KeepsNumber s.user_level (web.number 0)
      × KeepsNumber s.proxy_protocol (web.number 0)
      × ((f : Fragment) × (s.fragment ≡ some f) × FragmentRecoverable f)
      × All RuleRecoverable s.final_rules

  abbrev pub PeerRecoverable : WireguardFormPeer N → Type 0
  PeerRecoverable p = KeepsNumber p.keep_alive (web.number 0)

  -- The public key is that of the secret key, and the two lists are written out without blanks.
  abbrev pub WireguardRecoverable : WireguardForm N → Type 0
  WireguardRecoverable s =
      KeepsNumber s.mtu (web.number 1420)
      × KeepsNumber s.workers (web.number 2)
      × (s.pub_key ≡ (if is_empty s.secret_key then "" else web.public_key_of s.secret_key))
      × (join "," (split_texts s.address) ≡ s.address)
      × (join "," (map web.number_text (reserved_to_wire rt s.reserved)) ≡ s.reserved)
      × All PeerRecoverable s.peers

  -- What settings in range need besides for the wire to keep it.
  abbrev pub IsRecoverable : OutboundSettings N → Type 0
  IsRecoverable (OutboundSettings.vmess s) = Unit
  IsRecoverable (OutboundSettings.vless s) = VlessRecoverable s
  IsRecoverable (OutboundSettings.trojan s) = Unit
  IsRecoverable (OutboundSettings.shadowsocks s) = web.is_finite s.uot_version ≡ true
  IsRecoverable (OutboundSettings.socks s) = is_empty s.user ≡ true → s.pass ≡ ""
  IsRecoverable (OutboundSettings.http s) = is_empty s.user ≡ true → s.pass ≡ ""
  IsRecoverable (OutboundSettings.wireguard s) = WireguardRecoverable s
  IsRecoverable (OutboundSettings.hysteria s) = Unit
  IsRecoverable (OutboundSettings.freedom s) = FreedomRecoverable s
  IsRecoverable (OutboundSettings.blackhole type) = Unit
  IsRecoverable (OutboundSettings.dns s) =
      (web.is_nonzero s.rewrite_port ≡ true)
      × KeepsNumber s.user_level (web.number 0)
      × (s.rules ≡ [])
  IsRecoverable (OutboundSettings.loopback tag) = Unit

  module _ (laws : WireLaws) where
    port-IsFinite : (n : N) → IsPort rt n → web.is_finite n ≡ true
    port-IsFinite n h = elim (Option-cases (rt.nat_of n)) [
      | inl e ↦ ground arith
      | inr (k, e) ↦ laws.nat_is_finite n k e
    ]

    -- A port is read as it was written.
    pub as_port_kept : (n d : N) → IsPort rt n → as_port rt (num n) d ≡ n
    as_port_kept n d h = as_port-num rt n d (port-IsFinite n h) h
