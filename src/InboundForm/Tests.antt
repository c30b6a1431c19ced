-- ===== src/InboundForm/Tests.antt =====
-- The inbound form on a small platform.
use x_ui_glass.Shared.{
  some, any, [], ◌∷◌, ◌||◌, ◌&&◌, not, str_eq, ℕ, ◌≡◌, refl, true, false, if◌then◌else◌,
}
use x_ui_glass.Json.{
  Value, undefined, bool, num, str, arr, obj, nil, cons, Fields, end, field, prop,
}
use x_ui_glass.Coerce.Sample.{sample_web}
use x_ui_glass.InboundForm.{
  prune_empty, IsPruned, synthesize_tls_cert_use_file, strip_tls_cert_use_file, normalize_sniffing,
  drop_empty_mask,
}
use x_ui_glass.InboundForm.Prune.{prune_empty_lem}
use x_ui_glass.InboundForm.Certificates.{strip-synthesize}
use x_ui_glass.InboundForm.Normal.{normalize_sniffing_twice}
use x_ui_glass.InboundForm.Masks.{masks, has_entry, is_given, drop_empty_mask_lem}

abbrev nested : Value ℕ
nested = obj (field "a" undefined (field "b" (arr (cons (obj (field "c" undefined end)) nil)) end))

prune_empty_lem_example :
    IsPruned (prune_empty nested) × (prune_empty (prune_empty nested) ≡ prune_empty nested)
prune_empty_lem_example = prune_empty_lem nested

nested_pruned : prune_empty nested ≡ obj (field "b" (arr (cons (obj end) nil)) end)
unfolding prune_empty
nested_pruned = refl

abbrev tls_stream : Fields ℕ → Fields ℕ
tls_stream c = field "tlsSettings" (obj (field "certificates" (arr (cons (obj c) nil)) end)) end

abbrev plain : Fields ℕ
plain = tls_stream (field "certificateFile" (str "/c") end)

abbrev switched : Fields ℕ
switched = tls_stream (field "certificateFile" (str "/c") (field "useFile" (bool true) end))

strip-synthesize_example : strip_tls_cert_use_file switched ≡ strip_tls_cert_use_file plain
unfolding synthesize_tls_cert_use_file
strip-synthesize_example = strip-synthesize sample_web plain switched refl

abbrev sniffing : Fields ℕ
sniffing = field "enabled" (bool true) (field "routeOnly" (bool false) end)

normalize_sniffing_twice_example :
    normalize_sniffing sample_web (some (normalize_sniffing sample_web (some sniffing)))
    ≡ normalize_sniffing sample_web (some sniffing)
normalize_sniffing_twice_example = normalize_sniffing_twice sample_web (some sniffing)

abbrev mask : Fields ℕ
mask = field "tcp" (arr nil) (field "udp" (arr (cons (num 1) nil)) end)

abbrev masked : Fields ℕ
masked = field "finalmask" (obj mask) (field "network" (str "tcp") end)

drop_empty_mask_lem_example :
    (prop (drop_empty_mask masked) "finalmask" ≡ (
      if any (λ l. is_given (prop (masks mask) l)) ("tcp" ∷ "udp" ∷ "quicParams" ∷ [])
      then obj (masks mask)
      else undefined))
    × (prop (masks mask) "tcp" ≡ (
        if (str_eq "tcp" "tcp" || str_eq "udp" "tcp") && not (has_entry (prop mask "tcp"))
        then undefined
        else prop mask "tcp"))
    × (prop (drop_empty_mask masked) "network" ≡ prop masked "network")
unfolding prop
drop_empty_mask_lem_example = drop_empty_mask_lem masked mask "tcp" "network" refl refl

-- Parameters alone keep the mask.
quic_kept :
    drop_empty_mask {N = ℕ} (field "finalmask" (obj (field "quicParams" (num 1) end)) end)
    ≡ field "finalmask" (obj (field "quicParams" (num 1) end)) end
unfolding drop_empty_mask
quic_kept = refl
