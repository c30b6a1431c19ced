-- ===== src/Headers/Tests.antt =====
-- Header lists and maps at concrete headers.
use x_ui_glass.Shared.{◌≡◌, refl, true, some, [], ◌∷◌, includes}
use x_ui_glass.Shared.Property.{lookup}
use x_ui_glass.Headers.{one, many, entry, to_v2_headers, get_header_value}
use x_ui_glass.Headers.RoundTrip.{values, packed, lookup-to_v2_headers, to_v2_headers-inherited}

headers_run :
    to_v2_headers (entry "Host" "a" ∷ entry "X" "" ∷ entry "Host" "b" ∷ []) true
    ≡ ("Host", many ("a" ∷ "b" ∷ [])) ∷ []
unfolding to_v2_headers
headers_run = refl

lookup_runs : get_header_value (some (("Host", many ("a" ∷ "b" ∷ [])) ∷ [])) "host" ≡ "a"
unfolding get_header_value
lookup_runs = refl

lookup-to_v2_headers_example :
    lookup "Host" (to_v2_headers (entry "Host" "a" ∷ entry "X" "c" ∷ entry "Host" "b" ∷ []) true)
    ≡ packed (values "Host" (entry "Host" "a" ∷ entry "X" "c" ∷ entry "Host" "b" ∷ []))
lookup-to_v2_headers_example =
    lookup-to_v2_headers (entry "Host" "a" ∷ entry "X" "c" ∷ entry "Host" "b" ∷ []) "Host"
      (unfold includes in refl)

to_v2_headers-inherited_example :
    to_v2_headers (entry "toString" "a" ∷ []) true ≡ ("toString", one "a") ∷ []
to_v2_headers-inherited_example =
    to_v2_headers-inherited "toString" "a" (unfold includes in refl) refl refl refl
