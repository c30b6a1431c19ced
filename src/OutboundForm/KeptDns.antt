-- ===== src/OutboundForm/KeptDns.antt =====
-- The settings of DNS without rules, written to the wire and read again.
use x_ui_glass.Shared.{
  String, Bool, true, false, not, ◌||◌, ◌≡◌, refl, sym, ap, ◌∙◌, [], ◌∷◌, if◌then◌else◌, is_empty,
  map, str_eq, includes, arith, Bool-cases, inl, inr, eq_iff,
}
use x_ui_glass.Json.{Value, undefined, str, num, Fields, prop, with_prop, end}
use x_ui_glass.Platform.{nullish}
use x_ui_glass.Coerce.{as_array, Runtime, as_port, as_number, as_string_or, as_string}
use x_ui_glass.OutboundForm.{
  OutboundSettings, DnsForm, set_if, dns_rule_from_wire, dns_to_wire, dns_from_wire,
}
use x_ui_glass.OutboundForm.Ranges.{IsPort, IsInRange, IsChoice}
use x_ui_glass.OutboundForm.Recover.{WireLaws, IsRecoverable, as_port_kept, KeepsNumber}
use x_ui_glass.OutboundForm.KeptLists.{number_kept}

module _ {N : Type 0} (rt : Runtime N) where
  open rt use {web}

  -- The properties without the rules, in their order, by which of them are written.
  abbrev flat : Bool → Bool → Bool → String → String → N → N → Fields N
  flat a b c network address port level = set_if c "userLevel" (num level) (
      set_if true "rewritePort" (num port)
        (set_if b "rewriteAddress" (str address) (set_if a "rewriteNetwork" (str network) end)))

  abbrev FlatRead : Bool → Bool → Bool → String → String → N → N → Type 0
  FlatRead a b c network address port level =
      let fs = flat a b c network address port level in
      (nullish (prop fs "rewriteNetwork") (prop fs "network")
        ≡ (if a then str network else undefined))
      × (nullish (prop fs "rewriteAddress") (prop fs "address")
          ≡ (if b then str address else undefined))
      × (nullish (prop fs "rewritePort") (prop fs "port") ≡ num port)
      × (prop fs "userLevel" ≡ (if c then num level else undefined))
      × (prop fs "rules" ≡ undefined)

  flat_read :
      (a b c : Bool) (network address : String) (port level : N)
      → FlatRead a b c network address port level
  unfolding prop with_prop nullish
  flat_read true true true network address port level = (refl, refl, refl, refl, refl)
  flat_read true true false network address port level = (refl, refl, refl, refl, refl)
  flat_read true false true network address port level = (refl, refl, refl, refl, refl)
  flat_read true false false network address port level = (refl, refl, refl, refl, refl)
  flat_read false true true network address port level = (refl, refl, refl, refl, refl)
  flat_read false true false network address port level = (refl, refl, refl, refl, refl)
  flat_read false false true network address port level = (refl, refl, refl, refl, refl)
  flat_read false false false network address port level = (refl, refl, refl, refl, refl)

  text_kept : (s : String) → as_string {N = N} (if not (is_empty s) then str s else undefined) ≡ s
  unfolding as_string_or
  text_kept s = elim (Bool-cases (is_empty s)) [
    | inl e ↦ rw e (ground (arith, eq_iff s ""))
    | inr e ↦ rw e refl
  ]

  network_kept :
      (s : String)
      → IsChoice rt ("udp" ∷ "tcp" ∷ []) s
      → (if str_eq s "udp" || str_eq s "tcp" then s else "") ≡ s
  unfolding includes
  network_kept s h =
      ground (arith, eq_iff "" s, eq_iff s "udp", eq_iff s "tcp", eq_iff "udp" s, eq_iff "tcp" s)

  module _ (laws : WireLaws rt) where
    read_network :
        (s : String) (v : Value N)
        → as_string v ≡ s
        → IsChoice rt ("udp" ∷ "tcp" ∷ []) s
        → (if str_eq (as_string v) "udp" || str_eq (as_string v) "tcp" then as_string v else "") ≡ s
    read_network s v e h = rw e (network_kept s h)

    flat_kept :
        (network address : String) (port level : N)
        → IsChoice rt ("udp" ∷ "tcp" ∷ []) network
        → IsPort rt port
        → KeepsNumber rt level (web.number 0)
        → dns_from_wire rt (
            flat
              (not (is_empty network))
              (not (is_empty address))
              (web.is_nonzero level)
              network
              address
              port
              level)
          ≡ record {
            rewrite_network = network;
            rewrite_address = address;
            rewrite_port = port;
            user_level = level;
            rules = [];
          }
    unfolding dns_from_wire
    flat_kept network address port level c p k =
        let fs =
          flat (not (is_empty network)) (not (is_empty address)) (web.is_nonzero level) network
            address port level in
        let r =
          flat_read (not (is_empty network)) (not (is_empty address)) (web.is_nonzero level) network
            address port level in
        λ i. record {
          rewrite_network =
              read_network network (nullish (prop fs "rewriteNetwork") (prop fs "network"))
                (ap as_string r.0 ∙ text_kept network) c i;
          rewrite_address = (ap as_string r.1 ∙ text_kept address) i;
          rewrite_port =
              (ap (λ v. as_port rt v (web.number 53)) r.2
                  ∙ as_port_kept rt laws port (web.number 53) p)
                i;
          user_level =
              (ap (λ v. as_number rt v (web.number 0)) r.3
                  ∙ number_kept rt laws level (web.number 0) k)
                i;
          rules = ap (λ v. map (dns_rule_from_wire rt) (as_array v)) r.4 i;
        }

    dns_flat :
        (network address : String) (port level : N)
        → web.is_nonzero port ≡ true
        → dns_to_wire rt (record {
          rewrite_network = network;
          rewrite_address = address;
          rewrite_port = port;
          user_level = level;
          rules = [];
        })
          ≡ flat
              (not (is_empty network))
              (not (is_empty address))
              (web.is_nonzero level)
              network
              address
              port
              level
    unfolding dns_to_wire
    dns_flat network address port level h = rw h refl

    pub dns_kept :
        (s : DnsForm N)
        → IsInRange rt (OutboundSettings.dns s)
        → IsRecoverable rt (OutboundSettings.dns s)
        → dns_from_wire rt (dns_to_wire rt s) ≡ s
    dns_kept s v h =
        let bare : s ≡ record {
          rewrite_network = s.rewrite_network;
          rewrite_address = s.rewrite_address;
          rewrite_port = s.rewrite_port;
          user_level = s.user_level;
          rules = [];
        } =
          λ i. record {
            rewrite_network = s.rewrite_network;
            rewrite_address = s.rewrite_address;
            rewrite_port = s.rewrite_port;
            user_level = s.user_level;
            rules = h.2 i;
          } in
        ap (λ (t : DnsForm N). dns_from_wire rt (dns_to_wire rt t)) bare
        ∙ ap (dns_from_wire rt)
            (dns_flat s.rewrite_network s.rewrite_address s.rewrite_port s.user_level h.0)
        ∙ flat_kept s.rewrite_network s.rewrite_address s.rewrite_port s.user_level v.1 v.0 h.1
        ∙ sym bare
