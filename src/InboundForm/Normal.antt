-- ===== src/InboundForm/Normal.antt =====
-- The sniffing settings that are sent, normalized once and twice.
use x_ui_glass.Shared.{
  Bool, Option, none, some, true, false, ◌≡◌, refl, sym, ap, ◌∙◌, inl, inr, if◌then◌else◌,
  Bool-cases,
}
use x_ui_glass.Json.{Value, undefined, bool, Fields, end, field, prop, with_prop}
use x_ui_glass.Platform.{Web, is_truthy}
use x_ui_glass.InboundForm.{normalize_sniffing, sniffing_payload, has_length, set_if}

module _ {N : Type 0} (web : Web N) where
  -- Sniffing that is on, by which of its optional properties are set.
  abbrev sniffed : Bool → Bool → Bool → Bool → Value N → Value N → Value N → Fields N
  sniffed a b c d dest ips domains = set_if web d "domainsExcluded" domains (
      set_if web c "ipsExcluded" ips (
        set_if web b "routeOnly" (bool true) (
          set_if web a "metadataOnly" (bool true)
            (field "enabled" (bool true) (field "destOverride" dest end)))))

  record Sniffed (a b c d : Bool) (dest ips domains : Value N) (s : Fields N) : Type 0 where
    enabled : prop s "enabled" ≡ bool true
    dest_override : prop s "destOverride" ≡ dest
    metadata_only : prop s "metadataOnly" ≡ (if a then bool true else undefined)
    route_only : prop s "routeOnly" ≡ (if b then bool true else undefined)
    ips_excluded : prop s "ipsExcluded" ≡ (if c then ips else undefined)
    domains_excluded : prop s "domainsExcluded" ≡ (if d then domains else undefined)

  sniffed-Sniffed :
      (a b c d : Bool) (dest ips domains : Value N)
      → Sniffed a b c d dest ips domains (sniffed a b c d dest ips domains)
  unfolding prop with_prop
  sniffed-Sniffed true true true true dest ips domains = record {
    enabled = refl;
    dest_override = refl;
    metadata_only = refl;
    route_only = refl;
    ips_excluded = refl;
    domains_excluded = refl;
  }
  sniffed-Sniffed true true true false dest ips domains = record {
    enabled = refl;
    dest_override = refl;
    metadata_only = refl;
    route_only = refl;
    ips_excluded = refl;
    domains_excluded = refl;
  }
  sniffed-Sniffed true true false true dest ips domains = record {
    enabled = refl;
    dest_override = refl;
    metadata_only = refl;
    route_only = refl;
    ips_excluded = refl;
    domains_excluded = refl;
  }
  sniffed-Sniffed true true false false dest ips domains = record {
    enabled = refl;
    dest_override = refl;
    metadata_only = refl;
    route_only = refl;
    ips_excluded = refl;
    domains_excluded = refl;
  }
  sniffed-Sniffed true false true true dest ips domains = record {
    enabled = refl;
    dest_override = refl;
    metadata_only = refl;
    route_only = refl;
    ips_excluded = refl;
    domains_excluded = refl;
  }
  sniffed-Sniffed true false true false dest ips domains = record {
    enabled = refl;
    dest_override = refl;
    metadata_only = refl;
    route_only = refl;
    ips_excluded = refl;
    domains_excluded = refl;
  }
  sniffed-Sniffed true false false true dest ips domains = record {
    enabled = refl;
    dest_override = refl;
    metadata_only = refl;
    route_only = refl;
    ips_excluded = refl;
    domains_excluded = refl;
  }
  sniffed-Sniffed true false false false dest ips domains = record {
    enabled = refl;
    dest_override = refl;
    metadata_only = refl;
    route_only = refl;
    ips_excluded = refl;
    domains_excluded = refl;
  }
  sniffed-Sniffed false true true true dest ips domains = record {
    enabled = refl;
    dest_override = refl;
    metadata_only = refl;
    route_only = refl;
    ips_excluded = refl;
    domains_excluded = refl;
  }
  sniffed-Sniffed false true true false dest ips domains = record {
    enabled = refl;
    dest_override = refl;
    metadata_only = refl;
    route_only = refl;
    ips_excluded = refl;
    domains_excluded = refl;
  }
  sniffed-Sniffed false true false true dest ips domains = record {
    enabled = refl;
    dest_override = refl;
    metadata_only = refl;
    route_only = refl;
    ips_excluded = refl;
    domains_excluded = refl;
  }
  sniffed-Sniffed false true false false dest ips domains = record {
    enabled = refl;
    dest_override = refl;
    metadata_only = refl;
    route_only = refl;
    ips_excluded = refl;
    domains_excluded = refl;
  }
  sniffed-Sniffed false false true true dest ips domains = record {
    enabled = refl;
    dest_override = refl;
    metadata_only = refl;
    route_only = refl;
    ips_excluded = refl;
    domains_excluded = refl;
  }
  sniffed-Sniffed false false true false dest ips domains = record {
    enabled = refl;
    dest_override = refl;
    metadata_only = refl;
    route_only = refl;
    ips_excluded = refl;
    domains_excluded = refl;
  }
  sniffed-Sniffed false false false true dest ips domains = record {
    enabled = refl;
    dest_override = refl;
    metadata_only = refl;
    route_only = refl;
    ips_excluded = refl;
    domains_excluded = refl;
  }
  sniffed-Sniffed false false false false dest ips domains = record {
    enabled = refl;
    dest_override = refl;
    metadata_only = refl;
    route_only = refl;
    ips_excluded = refl;
    domains_excluded = refl;
  }

  truthy_kept : (a : Bool) → is_truthy web (if a then bool true else undefined) ≡ a
  unfolding is_truthy
  truthy_kept true = refl
  truthy_kept false = refl

  length_kept :
      (c : Bool) (v : Value N)
      → (c ≡ true → has_length web v ≡ true)
      → has_length web (if c then v else undefined) ≡ c
  length_kept true v h = h refl
  length_kept false v h = refl

  sniffed_values :
      (a b c d : Bool) (dest ips domains : Value N)
      → sniffed a b c d dest (if c then ips else undefined) (if d then domains else undefined)
        ≡ sniffed a b c d dest ips domains
  sniffed_values a b true true dest ips domains = refl
  sniffed_values a b true false dest ips domains = refl
  sniffed_values a b false true dest ips domains = refl
  sniffed_values a b false false dest ips domains = refl

  sniffing_on :
      (s : Fields N)
      → is_truthy web (prop s "enabled") ≡ true
      → sniffing_payload web s
        ≡ sniffed
            (is_truthy web (prop s "metadataOnly"))
            (is_truthy web (prop s "routeOnly"))
            (has_length web (prop s "ipsExcluded"))
            (has_length web (prop s "domainsExcluded"))
            (prop s "destOverride")
            (prop s "ipsExcluded")
            (prop s "domainsExcluded")
  unfolding sniffing_payload
  sniffing_on s e = rw e refl

  sniffing_off :
      (s : Fields N)
      → is_truthy web (prop s "enabled") ≡ false
      → sniffing_payload web s ≡ field "enabled" (bool false) end
  unfolding sniffing_payload
  sniffing_off s e = rw e refl

  off_fixed :
      sniffing_payload web (field "enabled" (bool false) end) ≡ field "enabled" (bool false) end
  unfolding sniffing_payload
  off_fixed = refl

  sniffed_fixed :
      (a b c d : Bool) (dest ips domains : Value N) (s : Fields N)
      → (c ≡ true → has_length web ips ≡ true)
      → (d ≡ true → has_length web domains ≡ true)
      → Sniffed a b c d dest ips domains s
      → sniffing_payload web s ≡ sniffed a b c d dest ips domains
  unfolding is_truthy
  sniffed_fixed a b c d dest ips domains s hc hd w =
      sniffing_on s (rw w.enabled refl)
      ∙ rw
          (
            w.metadata_only,
            w.route_only,
            w.ips_excluded,
            w.domains_excluded,
            w.dest_override,
            truthy_kept a,
            truthy_kept b,
            length_kept c ips hc,
            length_kept d domains hd,
          )
          (sniffed_values a b c d dest ips domains)

  normal :
      (s : Fields N) (a b c d : Bool) (dest ips domains : Value N)
      → (c ≡ true → has_length web ips ≡ true)
      → (d ≡ true → has_length web domains ≡ true)
      → sniffing_payload web s ≡ sniffed a b c d dest ips domains
      → sniffing_payload web (sniffing_payload web s) ≡ sniffing_payload web s
  normal s a b c d dest ips domains hc hd e =
      ap (sniffing_payload web) e
      ∙ sniffed_fixed a b c d dest ips domains (sniffed a b c d dest ips domains) hc hd
          (sniffed-Sniffed a b c d dest ips domains)
      ∙ sym e

  sniffing_twice :
      (s : Fields N) → sniffing_payload web (sniffing_payload web s) ≡ sniffing_payload web s
  sniffing_twice s = elim (Bool-cases (is_truthy web (prop s "enabled"))) [
    | inl e ↦
        normal s (is_truthy web (prop s "metadataOnly")) (is_truthy web (prop s "routeOnly"))
          (has_length web (prop s "ipsExcluded")) (has_length web (prop s "domainsExcluded"))
          (prop s "destOverride") (prop s "ipsExcluded") (prop s "domainsExcluded") (λ h. h)
          (λ h. h) (sniffing_on s e)
    | inr e ↦ rw (sniffing_off s e) off_fixed
  ]

  -- Normalizing sniffing settings twice is normalizing them once, also where there are none.
  pub normalize_sniffing_twice :
      (s : Option (Fields N))
      → normalize_sniffing web (some (normalize_sniffing web s)) ≡ normalize_sniffing web s
  unfolding normalize_sniffing
  normalize_sniffing_twice none = off_fixed
  normalize_sniffing_twice (some s) = sniffing_twice s
