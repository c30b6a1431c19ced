-- ===== src/Headers.antt =====
-- frontend/src/lib/xray/headers.ts: header lists and header maps. A map is the list of an object's
-- own properties, in the order of `Object.keys`. Case folding is that of ASCII, as header names are.
pub mod RoundTrip
mod Tests
use x_ui_glass.Shared.{
  ℕ, suc, String, Bool, true, false, ◌&&◌, ◌||◌, not, Option, none, some, List, [], ◌∷◌, ◌++◌, map,
  if◌then◌else◌, maybe, is_empty, str_eq, to_lower, or_else,
}
use x_ui_glass.Shared.Numeral.{decimal}
use x_ui_glass.Shared.Property.{lookup, has_property, assign, insert}
use x_ui_glass.Json.{Value, str, arr, obj, items, entries}

pub record HeaderEntry : Type 0 where
  pub name : String
  pub value : String

-- `string | string[]`
pub data HeaderValue : Type 0 where
  one : String → HeaderValue
  many : List String → HeaderValue

abbrev pub HeaderMap : Type 0
HeaderMap = List (String × HeaderValue)

abbrev pub entry : String → String → HeaderEntry
entry name value = record { name = name; value = value }

module _ {N : Type 0} where
  abbrev texts_of : String → List (Value N) → List HeaderEntry
  texts_of key [] = []
  texts_of key (str s ∷ vs) = entry key s ∷ texts_of key vs
  texts_of key (_ ∷ vs) = texts_of key vs

  entries_of : String → Value N → List HeaderEntry
  unfolding items
  entries_of key (str s) = entry key s ∷ []
  entries_of key (arr vs) = texts_of key (items vs)
  entries_of key v = []

  list_headers : List (String × Value N) → List HeaderEntry
  list_headers [] = []
  list_headers ((key, values) ∷ m) = entries_of key values ++ list_headers m

  -- The properties of an array are its indices.
  indexed : ℕ → List (Value N) → List (String × Value N)
  indexed i [] = []
  indexed i (v ∷ vs) = (decimal i, v) ∷ indexed (suc i) vs

  unfoldable pub to_headers : Value N → List HeaderEntry
  unfolding entries_of list_headers indexed entries items decimal
  to_headers (obj fs) = list_headers (entries fs)
  to_headers (arr vs) = list_headers (indexed 0 (items vs))
  to_headers v = []

abbrev first_value : HeaderValue → String
first_value (one s) = s
first_value (many []) = ""
first_value (many (s ∷ ss)) = s

find_header : String → HeaderMap → String
find_header lower [] = ""
find_header lower ((key, value) ∷ m) =
    if str_eq (to_lower key) lower then first_value value else find_header lower m

-- `none` stands for `null` and `undefined`.
unfoldable pub get_header_value : Option HeaderMap → String → String
unfolding find_header to_lower
get_header_value none name = ""
get_header_value (some headers) name = find_header (to_lower name) headers

-- `if (arr && Array.isArray(existing)) existing.push(value); else out[name] = value;`
collide : Bool → Option HeaderValue → HeaderEntry → HeaderMap → HeaderMap
collide true (some (many values)) h out = insert h.name (many (values ++ h.value ∷ [])) out
collide as_list existing h out = assign h.name (one h.value) out

abbrev pub is_blank : HeaderEntry → Bool
is_blank h = is_empty h.name || is_empty h.value

unfoldable pub add_header : Bool → HeaderEntry → HeaderMap → HeaderMap
unfolding collide has_property assign insert lookup
add_header as_list h out =
    if is_blank h
    then out
    else if has_property h.name out
    then collide as_list (lookup h.name out) h out
    else assign h.name (if as_list then many (h.value ∷ []) else one h.value) out

add_headers : Bool → List HeaderEntry → HeaderMap → HeaderMap
add_headers as_list [] out = out
add_headers as_list (h ∷ hs) out = add_headers as_list hs (add_header as_list h out)

unfoldable pub to_v2_headers : List HeaderEntry → Bool → HeaderMap
unfolding add_headers add_header
to_v2_headers headers as_list = add_headers as_list headers []
