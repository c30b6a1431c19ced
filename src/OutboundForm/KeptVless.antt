-- ===== src/OutboundForm/KeptVless.antt =====
-- The settings of VLESS, written to the wire and read again.
use x_ui_glass.Shared.{
  String, Bool, true, false, ◌≡◌, refl, sym, ap, ◌∙◌, List, [], ◌≢◌, ◌∷◌, if◌then◌else◌, is_empty,
  str_eq, arith, Bool-cases, inl, inr, eq_iff,
}
use x_ui_glass.Json.{
  Value, undefined, str, num, arr, obj, Fields, prop, end, field, of_items, texts,
}
use x_ui_glass.Coerce.{
  Runtime, as_object, as_array, as_port, as_number, as_string_or, as_string, as_strings,
  as_strings-texts, as_strings-or_undefined,
}
use x_ui_glass.OutboundForm.{
  VlessForm, ReverseSniffing, vless_to_wire, vless_from_wire, vless_from, vless_read,
  reverse_fields, vision_fields, sniffing_to_wire, reverse_sniffing_from_wire,
  reverse_sniffing_to_wire, reverse_sniffing_default, or_none, or_overrides, is_testseed,
  default_testseed,
}
use x_ui_glass.OutboundForm.Ranges.{VlessIsInRange}
use x_ui_glass.OutboundForm.Recover.{WireLaws, TextTells, VlessRecoverable, as_port_kept}
use x_ui_glass.OutboundForm.KeptParts.{items-of_items}
use x_ui_glass.OutboundForm.VlessWritten.{Written, written, written_read}

module _ (N : Type 0) where
  overrides_kept :
      (ss : List String) → ss ≢ [] → or_overrides (as_strings {N = N} (arr (texts ss))) ≡ ss
  overrides_kept [] h = absurd (h refl)
  overrides_kept (s ∷ ss) h = ap or_overrides (as_strings-texts N (s ∷ ss))

  pub sniffing_read :
      (s : ReverseSniffing)
      → s.dest_override ≢ []
      → reverse_sniffing_from_wire {N = N} (obj (reverse_sniffing_to_wire s)) ≡ s
  unfolding reverse_sniffing_from_wire reverse_sniffing_to_wire
  sniffing_read s h = λ i. record {
    enabled = s.enabled;
    dest_override = overrides_kept s.dest_override h i;
    metadata_only = s.metadata_only;
    route_only = s.route_only;
    ips_excluded = as_strings-or_undefined N s.ips_excluded i;
    domains_excluded = as_strings-or_undefined N s.domains_excluded i;
  }

module _ {N : Type 0} (rt : Runtime N) (laws : WireLaws rt) where
  open rt use {web}

  -- `{}` is read as the default sniffing.
  sniffing_kept :
      (s : ReverseSniffing)
      → s.dest_override ≢ []
      → TextTells rt s
      → reverse_sniffing_from_wire {N = N} (obj (sniffing_to_wire rt s)) ≡ s
  unfolding sniffing_to_wire reverse_sniffing_from_wire
  sniffing_kept s h tells =
      elim (Bool-cases (
        str_eq (web.stringify (obj (reverse_sniffing_to_wire s)))
          (web.stringify (obj (reverse_sniffing_to_wire reverse_sniffing_default))))) [
            | inl e ↦ rw e (sym (tells ((eq_iff _ _).0 e)))
            | inr e ↦ rw e (sniffing_read N s h)
          ]

  abbrev reverse_of : VlessForm N → Fields N
  reverse_of s =
      field "tag" (str s.reverse_tag)
        (field "sniffing" (obj (sniffing_to_wire rt s.reverse_sniffing)) end)

  vless_to_wire-written :
      (s : VlessForm N)
      → is_testseed rt s.testseed ≡ true
      → vless_to_wire rt s
        ≡ written
            (is_empty s.reverse_tag)
            (str_eq s.flow "xtls-rprx-vision")
            (web.is_positive s.testpre)
            s
            (reverse_of s)
  unfolding vless_to_wire reverse_fields vision_fields
  vless_to_wire-written s h = rw h refl

  encryption_kept : (e : String) → is_empty e ≡ false → or_none (or_none e) ≡ e
  encryption_kept e h = rw (h, h) refl

  tag_kept :
      (tag : String) (sniffing : Value N)
      → as_string (
          prop
            (as_object (
              if is_empty tag
              then undefined
              else obj (field "tag" (str tag) (field "sniffing" sniffing end))))
            "tag")
        ≡ tag
  unfolding as_string_or as_object prop
  tag_kept tag sniffing = elim (Bool-cases (is_empty tag)) [
    | inl e ↦ rw e (ground (arith, eq_iff tag ""))
    | inr e ↦ rw e refl
  ]

  testpre_kept :
      (v p : Bool) (n d : N)
      → web.is_finite n ≡ true
      → (v ≡ false → n ≡ d)
      → (p ≡ false → n ≡ d)
      → as_number rt (if v then if p then num n else undefined else undefined) d ≡ n
  unfolding as_number
  testpre_kept true true n d f hv hp = rw f refl
  testpre_kept true false n d f hv hp = sym (hp refl)
  testpre_kept false p n d f hv hp = sym (hv refl)

  testseed_kept :
      (v : Bool) (seed : List (Value N))
      → is_testseed rt seed ≡ true
      → is_testseed rt [] ≡ false
      → (v ≡ false → seed ≡ default_testseed rt)
      → (if is_testseed rt (as_array (if v then arr (of_items seed) else undefined))
          then as_array (if v then arr (of_items seed) else undefined)
          else default_testseed rt)
        ≡ seed
  unfolding as_array
  testseed_kept true seed t n h = rw (items-of_items N seed, t) refl
  testseed_kept false seed t n h = rw n (sym (h refl))

  sniffing_back :
      (tag : String) (s : ReverseSniffing)
      → s.dest_override ≢ []
      → (is_empty tag ≡ true → s ≡ reverse_sniffing_default)
      → TextTells rt s
      → (if is_empty tag
          then reverse_sniffing_default
          else reverse_sniffing_from_wire (
              prop
                (as_object (
                  if is_empty tag
                  then undefined
                  else obj
                      (field "tag" (str tag) (field "sniffing" (obj (sniffing_to_wire rt s)) end))))
                "sniffing"))
        ≡ s
  unfolding as_object prop
  sniffing_back tag s d h tells = elim (Bool-cases (is_empty tag)) [
    | inl e ↦ rw e (sym (h e))
    | inr e ↦ rw e (sniffing_kept s d tells)
  ]

  Written-kept :
      (s : VlessForm N) (fs : Fields N)
      → VlessIsInRange rt s
      → VlessRecoverable rt s
      → Written
          (is_empty s.reverse_tag)
          (str_eq s.flow "xtls-rprx-vision")
          (web.is_positive s.testpre)
          s
          (reverse_of s)
          fs
      → vless_from rt fs fs fs ≡ s
  unfolding vless_from is_testseed
  Written-kept s fs v h w = λ i. record {
    address = ap (λ x. as_string x) w.address i;
    port =
        (ap (λ x. as_port rt x (web.number 443)) w.port
            ∙ as_port_kept rt laws s.port (web.number 443) v.0)
          i;
    id = ap (λ x. as_string x) w.id i;
    flow = ap (λ x. as_string x) w.flow i;
    encryption =
        (ap (λ x. or_none (as_string_or x "none")) w.encryption ∙ encryption_kept s.encryption v.1)
          i;
    reverse_tag =
        (ap (λ x. as_string (prop (as_object x) "tag")) w.reverse
            ∙ tag_kept s.reverse_tag (obj (sniffing_to_wire rt s.reverse_sniffing)))
          i;
    reverse_sniffing =
        (ap
              (λ x.
                if is_empty (as_string (prop (as_object x) "tag"))
                then reverse_sniffing_default
                else reverse_sniffing_from_wire (prop (as_object x) "sniffing"))
              w.reverse
            ∙ ap
                (λ t.
                  if is_empty t
                  then reverse_sniffing_default
                  else reverse_sniffing_from_wire (
                      prop
                        (as_object
                          (if is_empty s.reverse_tag then undefined else obj (reverse_of s)))
                        "sniffing"))
                (tag_kept s.reverse_tag (obj (sniffing_to_wire rt s.reverse_sniffing)))
            ∙ sniffing_back s.reverse_tag s.reverse_sniffing v.3 h.0 h.4)
          i;
    testpre =
        (ap (λ x. as_number rt x (web.number 0)) w.testpre
            ∙ testpre_kept _ _ s.testpre (web.number 0) h.2 (λ e. (h.1 e).0) h.3)
          i;
    testseed =
        (ap (λ x. if is_testseed rt (as_array x) then as_array x else default_testseed rt)
              w.testseed
            ∙ testseed_kept _ s.testseed v.2 refl (λ e. (h.1 e).1))
          i;
  }

  -- Without `vnext` the flat settings are read.
  vless_from_wire-flat :
      (fs : Fields N) → prop fs "vnext" ≡ undefined → vless_from_wire rt fs ≡ vless_from rt fs fs fs
  unfolding vless_from_wire vless_read as_array
  vless_from_wire-flat fs h = ap (λ x. vless_read rt fs (as_array x)) h

  pub vless_kept :
      (s : VlessForm N)
      → VlessIsInRange rt s
      → VlessRecoverable rt s
      → vless_from_wire rt (vless_to_wire rt s) ≡ s
  vless_kept s v h =
      let vision = str_eq s.flow "xtls-rprx-vision" in
      let early = web.is_positive s.testpre in
      let fs = written (is_empty s.reverse_tag) vision early s (reverse_of s) in
      let w = written_read (is_empty s.reverse_tag) vision early s (reverse_of s) in
      ap (vless_from_wire rt) (vless_to_wire-written s v.2)
      ∙ vless_from_wire-flat fs w.vnext
      ∙ Written-kept s fs v h w
