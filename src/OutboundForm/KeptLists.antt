-- ===== src/OutboundForm/KeptLists.antt =====
-- Settings with lists that are written to the wire and read again: Freedom and WireGuard, and DNS.
use x_ui_glass.Shared.{
  ℕ, String, false, ◌||◌, ◌≡◌, refl, sym, ap, ◌≢◌, ◌≤◌, Option, some, List, [], ◌∷◌, map,
  if◌then◌else◌, is_empty, arith, Bool-cases, inl, inr, All, eq_iff, join,
}
use x_ui_glass.Json.{num, arr, undefined, of_items, texts}
use x_ui_glass.Coerce.{
  Runtime, as_number, as_array, as_object, as_string-or_undefined, as_number-or_undefined,
  as_strings, as_string_or, texts_or_undefined, number_or_undefined, as_strings-texts, is_number,
}
use x_ui_glass.OutboundForm.{
  OutboundSettings, FreedomForm, Fragment, Noise, FinalRule, WireguardForm, WireguardFormPeer,
  freedom_to_wire, freedom_from_wire, wireguard_to_wire, wireguard_from_wire, values_or_undefined,
  noise_to_wire, noise_from_wire, final_rule_to_wire, final_rule_from_wire, fragment_to_wire,
  fragment_from_wire, peer_to_wire, peer_from_wire, or_blocked, proxy_protocol_from,
  wireguard_strategies, freedom_strategies, number_or_text, split_texts, reserved_to_wire,
  or_all_addresses,
}
use x_ui_glass.OutboundForm.Ranges.{IsInRange, PeerIsInRange}
use x_ui_glass.OutboundForm.Recover.{
  WireLaws, KeepsNumber, FragmentRecoverable, RuleRecoverable, FreedomRecoverable, PeerRecoverable,
  WireguardRecoverable,
}
use x_ui_glass.OutboundForm.KeptParts.{
  as_array-or_undefined, noises_kept, items-of_items, choice_kept, fragment_kept, rules_kept,
  no_legacy_rules,
}

module _ {N : Type 0} (rt : Runtime N) (laws : WireLaws rt) where
  open rt use {web}

  pub number_kept : (n d : N) → KeepsNumber rt n d → as_number rt (number_or_undefined rt n) d ≡ n
  number_kept n d h = as_number-or_undefined rt n d h.0 h.1

  small_kept :
      (n : N) (k : ℕ)
      → rt.nat_of n ≡ some k
      → k ≤ 2
      → (web.is_nonzero n ≡ false → n ≡ web.number 0)
      → (if is_number rt n 1 || is_number rt n 2 then n else web.number 0) ≡ n
  small_kept n k e b z = rw e (ground (arith, laws.zero_is_falsy n))

  proxy_protocol_kept :
      (n : N)
      → KeepsNumber rt n (web.number 0)
      → (k : ℕ) → rt.nat_of n ≡ some k
      → k ≤ 2
      → proxy_protocol_from rt (number_or_undefined rt n) ≡ n
  unfolding proxy_protocol_from
  proxy_protocol_kept n h k e b = rw (number_kept n (web.number 0) h) (small_kept n k e b h.1)

  some_fragment_kept :
      (o : Option Fragment)
      → ((f : Fragment) × (o ≡ some f) × FragmentRecoverable f)
      → some (fragment_from_wire (as_object (fragment_to_wire {N = N} o))) ≡ o
  some_fragment_kept o (f, e, h) = rw e (ap some (fragment_kept N f h))

  noises_read :
      (ns : List Noise)
      → map (noise_from_wire {N = N}) (as_array (values_or_undefined (map noise_to_wire ns))) ≡ ns
  noises_read ns = rw (as_array-or_undefined N (map noise_to_wire ns)) (noises_kept N ns)

  final_rules_read :
      (rs : List FinalRule)
      → All RuleRecoverable rs
      → or_blocked
          (map
            (final_rule_from_wire {N = N})
            (as_array (values_or_undefined (map final_rule_to_wire rs))))
          []
        ≡ rs
  final_rules_read rs h =
      rw (as_array-or_undefined N (map final_rule_to_wire rs), rules_kept N rs h)
        (no_legacy_rules N rs)

  pub freedom_kept :
      (s : FreedomForm N)
      → IsInRange rt (OutboundSettings.freedom s)
      → FreedomRecoverable rt s
      → freedom_from_wire rt (freedom_to_wire rt s) ≡ s
  unfolding freedom_from_wire freedom_to_wire
  freedom_kept s v h = λ i. record {
    domain_strategy = choice_kept N rt freedom_strategies s.domain_strategy v.0 i;
    redirect = as_string-or_undefined N s.redirect i;
    user_level = number_kept s.user_level (web.number 0) h.0 i;
    proxy_protocol = proxy_protocol_kept s.proxy_protocol h.1 v.1.0 v.1.1 v.1.2 i;
    fragment = some_fragment_kept s.fragment h.2 i;
    noises = noises_read s.noises i;
    final_rules = final_rules_read s.final_rules h.3 i;
  }

  addresses_kept :
      (ss : List String)
      → ss ≢ []
      → or_all_addresses (as_strings (texts_or_undefined {N = N} ss)) ≡ ss
  addresses_kept [] h = absurd (h refl)
  addresses_kept (s ∷ ss) h = ap or_all_addresses (as_strings-texts N (s ∷ ss))

  peers_kept :
      (ps : List (WireguardFormPeer N))
      → All (PeerIsInRange rt) ps
      → All (PeerRecoverable rt) ps
      → map (peer_from_wire rt) (map (peer_to_wire rt) ps) ≡ ps
  unfolding peer_from_wire peer_to_wire
  peers_kept [] v h = refl
  peers_kept (p ∷ ps) v h = λ i.
      record {
        public_key = p.public_key;
        psk = as_string-or_undefined N p.psk i;
        allowed_ips = addresses_kept p.allowed_ips v.0 i;
        endpoint = p.endpoint;
        keep_alive = number_kept p.keep_alive (web.number 0) h.0 i;
      }
      ∷ peers_kept ps v.1 h.1 i

  peers_read :
      (ps : List (WireguardFormPeer N))
      → All (PeerIsInRange rt) ps
      → All (PeerRecoverable rt) ps
      → map (peer_from_wire rt) (as_array (arr (of_items (map (peer_to_wire rt) ps)))) ≡ ps
  unfolding as_array
  peers_read ps v h = rw (items-of_items N (map (peer_to_wire rt) ps)) (peers_kept ps v h)

  numbers_joined :
      (ns : List N) → map (number_or_text rt) (map (λ n. num n) ns) ≡ map web.number_text ns
  numbers_joined [] = refl
  numbers_joined (n ∷ ns) = λ i. web.number_text n ∷ numbers_joined ns i

  texts_read : (ss : List String) → map (number_or_text rt) (as_array (arr (texts ss))) ≡ ss
  unfolding as_array as_string_or texts
  texts_read [] = refl
  texts_read (s ∷ ss) = λ i. s ∷ texts_read ss i

  address_kept :
      (s : String)
      → join "," (split_texts s) ≡ s
      → join "," (
          map
            (number_or_text rt)
            (as_array (arr (texts (if is_empty s then [] else split_texts s)))))
        ≡ s
  unfolding join
  address_kept s h =
      rw (texts_read (if is_empty s then [] else split_texts s)) (elim (Bool-cases (is_empty s)) [
        | inl e ↦ rw e (ground (arith, eq_iff s ""))
        | inr e ↦ rw e h
      ])

  reserved_kept :
      (s : String)
      → join "," (map web.number_text (reserved_to_wire rt s)) ≡ s
      → join "," (
          map (number_or_text rt) (
            as_array (
              if is_empty s
              then undefined
              else arr (of_items (map (λ n. num n) (reserved_to_wire rt s))))))
        ≡ s
  unfolding join as_array
  reserved_kept s h = elim (Bool-cases (is_empty s)) [
    | inl e ↦ rw e (ground (arith, eq_iff s ""))
    | inr e ↦
        rw
          (
            e,
            items-of_items N (map (λ n. num n) (reserved_to_wire rt s)),
            numbers_joined (reserved_to_wire rt s),
          )
          h
  ]

  pub wireguard_kept :
      (s : WireguardForm N)
      → IsInRange rt (OutboundSettings.wireguard s)
      → WireguardRecoverable rt s
      → wireguard_from_wire rt (wireguard_to_wire rt s) ≡ s
  unfolding wireguard_from_wire wireguard_to_wire
  wireguard_kept s v h = λ i. record {
    mtu = number_kept s.mtu (web.number 1420) h.0 i;
    secret_key = s.secret_key;
    pub_key = sym h.2 i;
    address = address_kept s.address h.3 i;
    workers = number_kept s.workers (web.number 2) h.1 i;
    domain_strategy = choice_kept N rt wireguard_strategies s.domain_strategy v.0 i;
    reserved = reserved_kept s.reserved h.4 i;
    peers = peers_read s.peers v.1 h.5 i;
    no_kernel_tun = s.no_kernel_tun;
  }
