-- ===== src/LinkParser/Kept.antt =====
-- What the parameters of a link leave as it is in a stream: its network and its security.
use x_ui_glass.Shared.{
  String, Bool, true, false, ◌≡◌, refl, ap, ◌∙◌, Option, none, some, List, if◌then◌else◌, if_intro,
  maybe_intro, str_eq, or_else,
}
use x_ui_glass.Shared.Property.{lookup, lookup-insert, insert}
use x_ui_glass.Json.{
  Value, str, obj, Fields, end, or_undefined, prop, with_prop, entries, entries-of_entries,
}
use x_ui_glass.Platform.{Web, get, get_or, nonempty, properties, is_object}
use x_ui_glass.LinkParser.{stream_of_params}
use x_ui_glass.LinkParser.Stream.{
  on_prop, build_stream, apply_transport_params, apply_security_params, apply_final_mask_param,
  attach_mask,
}

module _ {N : Type 0} where
  prop-with_prop_other :
      (k j : String) (v : Value N) (fs : Fields N)
      → str_eq k j ≡ false
      → prop (with_prop k v fs) j ≡ prop fs j
  unfolding prop with_prop
  prop-with_prop_other k j v fs e =
      let e2 : lookup j (insert k v (entries fs)) ≡ lookup j (entries fs) =
        lookup-insert k j v (entries fs) ∙ rw e refl in
      ap (λ m. or_undefined (lookup j m)) (entries-of_entries (insert k v (entries fs)))
      ∙ ap or_undefined e2

  -- Two streams that agree at a name.
  record Agree (j : String) (fs gs : Fields N) : Type 0 where
    same : prop gs j ≡ prop fs j

  on_prop-Agree :
      (k j : String) (f : Fields N → Fields N) (fs : Fields N)
      → str_eq k j ≡ false
      → Agree j fs (on_prop k f fs)
  unfolding on_prop
  on_prop-Agree k j f fs e = record {
    same = prop-with_prop_other k j (obj (f (or_else (properties (prop fs k)) end))) fs e;
  }

  if-Agree :
      (b : Bool) (j : String) (fs x y : Fields N)
      → Agree j fs x
      → Agree j fs y
      → Agree j fs (if b then x else y)
  if-Agree true j fs x y h k = h
  if-Agree false j fs x y h k = k

  Agree-refl : (j : String) (fs : Fields N) → Agree j fs fs
  Agree-refl j fs = record { same = refl }

  ruleset agreement = (on_prop-Agree, if-Agree, Agree-refl)

  module _ (web : Web N) (params : List (String × String)) where
    -- A name that is none of the settings'.
    abbrev IsKept : String → Type 0
    IsKept j =
        (str_eq "wsSettings" j ≡ false)
        × (str_eq "grpcSettings" j ≡ false)
        × (str_eq "httpupgradeSettings" j ≡ false)
        × (str_eq "xhttpSettings" j ≡ false)
        × (str_eq "tcpSettings" j ≡ false)
        × (str_eq "tlsSettings" j ≡ false)
        × (str_eq "realitySettings" j ≡ false)
        × (str_eq "finalmask" j ≡ false)

    apply_transport_params-Agree :
        (j : String) (fs : Fields N) → IsKept j → Agree j fs (apply_transport_params web fs params)
    unfolding apply_transport_params
    apply_transport_params-Agree j fs (a, b, c, d, e, _, _, _) = search agreement depth 9

    apply_security_params-Agree :
        (j : String) (fs : Fields N) → IsKept j → Agree j fs (apply_security_params web fs params)
    unfolding apply_security_params
    apply_security_params-Agree j fs (_, _, _, _, _, a, b, _) = search agreement depth 9

    attach_mask_kept :
        (parsed : Option (Value N)) (j : String) (fs : Fields N)
        → str_eq "finalmask" j ≡ false
        → prop (attach_mask web parsed fs) j ≡ prop fs j
    attach_mask_kept none j fs e = refl
    attach_mask_kept (some v) j fs e =
        if_intro (λ x. prop x j ≡ prop fs j) (is_object v)
          (λ _. prop-with_prop_other "finalmask" j v fs e) (λ _. refl)

    apply_final_mask_param_kept :
        (j : String) (fs : Fields N)
        → IsKept j
        → prop (apply_final_mask_param web fs params) j ≡ prop fs j
    unfolding apply_final_mask_param
    apply_final_mask_param_kept j fs (_, _, _, _, _, _, _, e) =
        maybe_intro (λ x. prop x j ≡ prop fs j) (nonempty (get "fm" params)) (λ _. refl)
          (λ fm _. attach_mask_kept (web.parse_json fm) j fs e)

    stream_kept :
        (j security : String)
        → IsKept j
        → prop (stream_of_params web params security) j
          ≡ prop
              (build_stream web
                (str (get_or "type" params "tcp"))
                (get_or "security" params security))
              j
    unfolding stream_of_params
    stream_kept j security h =
        let built =
          build_stream web (str (get_or "type" params "tcp")) (get_or "security" params security) in
        let placed = apply_transport_params web built params in
        apply_final_mask_param_kept j (apply_security_params web placed params) h
        ∙ (apply_security_params-Agree j placed h).same
        ∙ (apply_transport_params-Agree j built h).same

    -- Whatever the parameters are, the stream of a link has the network that `type` names, or TCP,
    -- and the security that `security` names, or that of the scheme.
    pub prop-stream_of_params :
        (security : String)
        → (prop (stream_of_params web params security) "network" ≡ str (get_or "type" params "tcp"))
          × (prop (stream_of_params web params security) "security"
              ≡ str (get_or "security" params security))
    prop-stream_of_params security = (
      stream_kept "network" security (refl, refl, refl, refl, refl, refl, refl, refl)
          ∙ unfold build_stream prop lookup entries in refl,
      stream_kept "security" security (refl, refl, refl, refl, refl, refl, refl, refl)
          ∙ unfold build_stream prop lookup entries in refl,
    )
