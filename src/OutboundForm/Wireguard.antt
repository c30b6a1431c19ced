-- ===== src/OutboundForm/Wireguard.antt =====
-- `wireguardFromWire` and `wireguardToWire`: lists on the wire are texts joined by commas in the
-- form.
use x_ui_glass.Shared.{
  String, not, List, [], ◌∷◌, map, if◌then◌else◌, is_empty, join, split, keep, trim, includes,
}
use x_ui_glass.Json.{
  Value, undefined, bool, num, str, arr, obj, Fields, end, field, prop, texts, of_items,
}
use x_ui_glass.Coerce.{
  Runtime, as_object, as_array, as_string_or, as_string, as_strings, as_bool, as_number,
  text_or_undefined, texts_or_undefined, number_or_undefined,
}
use x_ui_glass.OutboundForm.Settings.{WireguardForm, WireguardFormPeer}
use x_ui_glass.OutboundForm.Basic.{one_of}

abbrev pub wireguard_strategies : List String
wireguard_strategies = "ForceIP" ∷ "ForceIPv4" ∷ "ForceIPv4v6" ∷ "ForceIPv6" ∷ "ForceIPv6v4" ∷ []

abbrev pub all_addresses : List String
all_addresses = "0.0.0.0/0" ∷ "::/0" ∷ []

abbrev pub or_all_addresses : List String → List String
or_all_addresses [] = all_addresses
or_all_addresses (s ∷ ss) = s ∷ ss

unfoldable pub split_texts : String → List String
unfolding split trim keep
split_texts s = keep (λ p. not (is_empty p)) (map trim (split b',' s))

module _ {N : Type 0} (rt : Runtime N) where
  open rt use {web}

  -- `typeof x === 'number' ? String(x) : asString(x)`
  abbrev pub number_or_text : Value N → String
  number_or_text (num n) = web.number_text n
  number_or_text v = as_string v

  unfoldable pub peer_from_wire : Value N → WireguardFormPeer N
  unfolding as_object as_array as_string_or as_number prop
  peer_from_wire p =
      let pp = as_object p in
      record {
        public_key = as_string (prop pp "publicKey");
        psk = as_string (prop pp "preSharedKey");
        allowed_ips = or_all_addresses (as_strings (prop pp "allowedIPs"));
        endpoint = as_string (prop pp "endpoint");
        keep_alive = as_number rt (prop pp "keepAlive") (web.number 0);
      }

  unfoldable pub wireguard_from_wire : Fields N → WireguardForm N
  unfolding as_array as_string_or as_number as_bool prop peer_from_wire join includes
  wireguard_from_wire raw =
      let secret = as_string (prop raw "secretKey") in
      record {
        mtu = as_number rt (prop raw "mtu") (web.number 1420);
        secret_key = secret;
        pub_key = if is_empty secret then "" else web.public_key_of secret;
        address = join "," (map number_or_text (as_array (prop raw "address")));
        workers = as_number rt (prop raw "workers") (web.number 2);
        domain_strategy = one_of wireguard_strategies (as_string (prop raw "domainStrategy")) "";
        reserved = join "," (map number_or_text (as_array (prop raw "reserved")));
        peers = map peer_from_wire (as_array (prop raw "peers"));
        no_kernel_tun = as_bool (prop raw "noKernelTun");
      }

  unfoldable pub peer_to_wire : WireguardFormPeer N → Value N
  unfolding texts
  peer_to_wire p = obj (
      field "publicKey" (str p.public_key) (
        field "preSharedKey" (text_or_undefined p.psk) (
          field "allowedIPs" (texts_or_undefined p.allowed_ips) (
            field "endpoint" (str p.endpoint)
              (field "keepAlive" (number_or_undefined rt p.keep_alive) end)))))

  -- `s.split(',').map((x) => Number(x.trim())).filter((n) => Number.isFinite(n))`
  unfoldable pub reserved_to_wire : String → List N
  unfolding split trim keep
  reserved_to_wire s = keep web.is_finite (map (λ x. web.number_of (str (trim x))) (split b',' s))

  unfoldable pub wireguard_to_wire : WireguardForm N → Fields N
  unfolding split_texts reserved_to_wire peer_to_wire texts of_items
  wireguard_to_wire s =
      let reserved : Value N =
        if is_empty s.reserved
        then undefined
        else arr (of_items (map (λ n. num n) (reserved_to_wire s.reserved))) in
      field "mtu" (number_or_undefined rt s.mtu) (
        field "secretKey" (str s.secret_key) (
          field "address" (arr (texts (if is_empty s.address then [] else split_texts s.address))) (
            field "workers" (number_or_undefined rt s.workers) (
              field "domainStrategy" (text_or_undefined s.domain_strategy) (
                field "reserved" reserved (
                  field "peers" (arr (of_items (map peer_to_wire s.peers)))
                    (field "noKernelTun" (bool s.no_kernel_tun) end)))))))
