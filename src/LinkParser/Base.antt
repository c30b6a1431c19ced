-- ===== src/LinkParser/Base.antt =====
-- What the parsers share: URLs, parameters, names and the shape of an outbound.
use Prim.Native.Char.{code}
use x_ui_glass.Shared.{
  String, not, Option, none, some, List, [], ◌∷◌, if◌then◌else◌, is_empty, or_else, split, keep,
  str_eq, ◌==◌, map, ◌>>=◌, trim, after,
}
use x_ui_glass.Shared.Property.{lookup}
use x_ui_glass.Json.{Value, num, str, obj, Fields, end, field}
use x_ui_glass.Platform.{Web, Url, get, get_or, nonempty, number_or}
use x_ui_glass.LinkParser.Stream.{
  build_stream, apply_transport_params, apply_security_params, apply_final_mask_param,
}

-- `url.hash.replace(/^#/, '')`
abbrev pub without_mark : String → String
without_mark hash = or_else (after "#" hash) hash

-- `s.replace(/:$/, '')`
unfoldable pub without_colon : String → String
without_colon String.[] = ""
without_colon (String.◌∷◌ c String.[]) = if code c == b':' then "" else String.◌∷◌ c String.[]
without_colon (String.◌∷◌ c s) = String.◌∷◌ c (without_colon s)

-- `a ?? b` on results
abbrev pub or_try {ℓ} : {A : Type ℓ} → Option A → Option A → Option A
or_try none b = b
or_try (some a) b = some a

-- `firstParam`
unfoldable pub first_param : List (String × String) → List String → Option String
unfolding lookup
first_param params [] = none
first_param params (k ∷ ks) = or_try (nonempty (get k params)) (first_param params ks)

-- `s.split(',').map((p) => p.trim()).filter(Boolean)`
abbrev pub trimmed_parts : String → List String
trimmed_parts s = keep (λ p. not (is_empty p)) (map trim (split b',' s))

module _ {N : Type 0} (web : Web N) where
  unfoldable pub decode_remark : Url → String
  unfolding after
  decode_remark url = or_else (web.decode_component (without_mark url.hash)) (without_mark url.hash)

  unfoldable pub parse_url_link : String → String → Option Url
  unfolding without_colon
  parse_url_link link expected = do
    url ← web.parse_url link
    if str_eq (without_colon url.protocol) expected then some url else none

  abbrev pub port_of : Url → Value N
  port_of url = num (number_or web (str url.port) 443)

  -- The stream of a VLESS or Trojan link.
  unfoldable pub stream_of_params : List (String × String) → String → Fields N
  unfolding build_stream apply_transport_params apply_security_params apply_final_mask_param lookup
  stream_of_params params default_security =
      let stream =
        build_stream web (str (get_or "type" params "tcp"))
          (get_or "security" params default_security) in
      apply_final_mask_param web
        (apply_security_params web (apply_transport_params web stream params) params) params

  -- An outbound record with its stream.
  abbrev pub outbound : String → String → Value N → Fields N → Value N
  outbound protocol tag settings stream = obj (
      field "protocol" (str protocol) (
        field "tag" (str tag)
          (field "settings" settings (field "streamSettings" (obj stream) end))))

  -- One without.
  abbrev pub plain_outbound : String → String → Value N → Value N
  plain_outbound protocol tag settings =
      obj (field "protocol" (str protocol) (field "tag" (str tag) (field "settings" settings end)))
