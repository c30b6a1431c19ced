-- ===== src/OutboundForm/Payload.antt =====
-- The payload that the outbound form sends: which parts it has, and what is read off it.
use x_ui_glass.Shared.{
  maybe, ◌&&◌, String, true, false, ◌&&◌, ◌≡◌, refl, ap, ◌∙◌, Option, none, some, if◌then◌else◌,
  is_empty, str_eq, includes, arith, Bool-cases, inl, inr, eq_iff,
}
use x_ui_glass.Json.{undefined, Fields, prop, end, or_undefined, Value}
use x_ui_glass.Coerce.{as_object, as_string, as_string_or, Runtime, as_number}
use x_ui_glass.OutboundForm.{
  stream_to_wire, protocol_of, part, text_part, mux_part, raw_outbound_to_form_values,
  form_values_to_wire_payload, mux_allowed, mux_to_wire, mux_from_wire, udp443_modes,
  OutboundValues, MuxForm,
}
use x_ui_glass.OutboundForm.Ranges.{IsInRange}
use x_ui_glass.OutboundForm.Recover.{WireLaws, IsRecoverable}
use x_ui_glass.OutboundForm.RoundTrip.{settings_kept}

module _ {N : Type 0} (rt : Runtime N) where
  open rt use {web}

  part_read :
      (k : String) (o : Option (Value N)) (rest : Fields N)
      → prop rest k ≡ undefined
      → prop (part rt k o rest) k ≡ or_undefined o
  unfolding prop
  part_read k none rest h = h
  part_read k (some v) rest h = rw ((eq_iff k k).1 refl) refl

  part_skipped :
      (j k : String) (o : Option (Value N)) (rest : Fields N)
      → str_eq k j ≡ false
      → prop (part rt k o rest) j ≡ prop rest j
  unfolding prop
  part_skipped j k none rest h = refl
  part_skipped j k (some v) rest h = rw h refl

  text_part_read : (s : String) → as_string (or_undefined (text_part rt s)) ≡ s
  unfolding as_string_or
  text_part_read s = elim (Bool-cases (is_empty s)) [
    | inl e ↦ rw e (ground (arith, eq_iff s ""))
    | inr e ↦ rw e refl
  ]

  abbrev parts :
      Option (Value N) → Option (Value N) → Option (Value N) → Option (Value N) → Fields N
  parts tag stream send mux =
      part rt "tag" tag
        (part rt "streamSettings" stream (part rt "sendThrough" send (part rt "mux" mux end)))

  parts_read :
      (tag stream send mux : Option (Value N))
      → (prop (parts tag stream send mux) "tag" ≡ or_undefined tag)
        × (prop (parts tag stream send mux) "sendThrough" ≡ or_undefined send)
        × (prop (parts tag stream send mux) "mux" ≡ or_undefined mux)
        × (prop (parts tag stream send mux) "streamSettings" ≡ or_undefined stream)
  unfolding prop
  parts_read tag stream send mux =
      let r = part rt "mux" mux end in
      let q = part rt "sendThrough" send r in
      let p = part rt "streamSettings" stream q in
      (
        part_read "tag" tag p (
            part_skipped "tag" "streamSettings" stream q refl
            ∙ part_skipped "tag" "sendThrough" send r refl
            ∙ part_skipped "tag" "mux" mux end refl),
        part_skipped "sendThrough" "tag" tag p refl
            ∙ part_skipped "sendThrough" "streamSettings" stream q refl
            ∙ part_read "sendThrough" send r (part_skipped "sendThrough" "mux" mux end refl),
        part_skipped "mux" "tag" tag p refl
            ∙ part_skipped "mux" "streamSettings" stream q refl
            ∙ part_skipped "mux" "sendThrough" send r refl
            ∙ part_read "mux" mux end refl,
        part_skipped "streamSettings" "tag" tag p refl
            ∙ part_read "streamSettings" stream q (
                part_skipped "streamSettings" "sendThrough" send r refl
                ∙ part_skipped "streamSettings" "mux" mux end refl),
      )

  -- A multiplexer whose numbers are finite and whose mode is one of the three.
  abbrev pub MuxIsInRange : MuxForm N → Type 0
  MuxIsInRange m =
      (web.is_finite m.concurrency ≡ true)
      × (web.is_finite m.xudp_concurrency ≡ true)
      × (includes udp443_modes m.xudp_proxy_udp443 ≡ true)

  mux_kept : (m : MuxForm N) → MuxIsInRange m → mux_from_wire rt (mux_to_wire m) ≡ m
  unfolding mux_from_wire mux_to_wire as_number
  mux_kept m h = ground arith

  -- The multiplexer of a record without one.
  abbrev pub no_mux : MuxForm N
  no_mux = record {
    enabled = false;
    concurrency = web.number 8;
    xudp_concurrency = web.number 16;
    xudp_proxy_udp443 = "reject";
  }

  mux_absent : mux_from_wire rt undefined ≡ no_mux
  unfolding mux_from_wire as_number
  mux_absent = refl

  mux_part_kept :
      (values : OutboundValues N) (m : MuxForm N)
      → values.mux ≡ some m
      → MuxIsInRange m
      → mux_from_wire rt (or_undefined (mux_part rt values))
        ≡ (if m.enabled && mux_allowed values then m else no_mux)
  unfolding mux_part
  mux_part_kept values m e k = elim (Bool-cases (m.enabled && mux_allowed values)) [
    | inl on ↦ rw (e, on) (mux_kept m k)
    | inr off ↦ rw (e, off) mux_absent
  ]

  -- A payload is read as what was sent: the settings, the tag and the address to send through; and
  -- the multiplexer where it is switched on and the form allows it, the default one otherwise.
  pub raw_outbound-form_values :
      (laws : WireLaws rt) (values : OutboundValues N) (m : MuxForm N)
      → IsInRange rt values.settings
      → IsRecoverable rt values.settings
      → values.mux ≡ some m
      → MuxIsInRange m
      → let back = raw_outbound_to_form_values rt (form_values_to_wire_payload rt values) in
        (back.settings ≡ values.settings)
        × (back.tag ≡ values.tag)
        × (back.send_through ≡ values.send_through)
        × (back.mux ≡ some (if m.enabled && mux_allowed values then m else no_mux))
  unfolding raw_outbound_to_form_values form_values_to_wire_payload as_object as_string_or
  raw_outbound-form_values laws values m v h e k =
      let protocol = protocol_of values.settings in
      let r =
        parts_read (text_part rt values.tag) (maybe values.stream none (stream_to_wire rt protocol))
          (text_part rt values.send_through) (mux_part rt values) in
      (
        settings_kept rt laws values.settings v h,
        ap (λ x. as_string x) r.0 ∙ text_part_read values.tag,
        ap (λ x. as_string x) r.1 ∙ text_part_read values.send_through,
        ap (λ x. some (mux_from_wire rt x)) r.2 ∙ ap some (mux_part_kept values m e k),
      )
