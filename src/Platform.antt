-- ===== src/Platform.antt =====
-- What the program takes from the browser: numbers, JSON, URLs and percent and base64 encodings.
-- These are an argument of the definitions that use them. A call that may throw is an `Option`.
use x_ui_glass.Shared.{
  ℕ, String, Bool, true, false, not, Option, none, some, List, if◌then◌else◌, is_empty, or_else,
  str_eq,
}
use x_ui_glass.Shared.Property.{lookup}
use x_ui_glass.Json.{Value, undefined, null, bool, num, str, arr, obj, Fields, end}

-- What the program reads of a `URL`; `params` is the list of `searchParams`.
pub record Url : Type 0 where
  pub protocol : String
  pub username : String
  pub hostname : String
  pub port : String
  pub params : List (String × String)
  pub hash : String

pub record Web (N : Type 0) : Type 0 where
  pub number : ℕ → N
  pub number_of : Value N → N
  pub number_text : N → String
  pub is_nonzero : N → Bool
  pub is_positive : N → Bool
  pub is_finite : N → Bool
  pub parse_json : String → Option (Value N)
  pub stringify : Value N → String
  pub stringify_indented : Value N → String
  pub parse_url : String → Option Url
  pub print_url : Url → String
  pub set_username : String → Url → Url
  pub set_hash : String → Url → Url
  pub encode_component : String → String
  pub decode_component : String → Option String
  pub encode_base64 : String → Bool → String
  pub decode_base64 : String → Option String
  pub public_key_of : String → String

-- `params.get(k)`
abbrev pub get : String → List (String × String) → Option String
get = lookup

-- `params.get(k) ?? d`
abbrev pub get_or : String → List (String × String) → String → String
get_or k params d = or_else (lookup k params) d

abbrev pub nonempty : Option String → Option String
nonempty none = none
nonempty (some s) = if is_empty s then none else some s

module _ {N : Type 0} where
  -- `v === s`
  unfoldable pub is_text : Value N → String → Bool
  is_text (str t) s = str_eq t s
  is_text _ s = false

  -- `v ?? d`
  unfoldable pub nullish : Value N → Value N → Value N
  nullish undefined d = d
  nullish null d = d
  nullish v d = v

  -- The properties of a value; reading one of `null` or `undefined` throws.
  unfoldable pub properties : Value N → Option (Fields N)
  properties undefined = none
  properties null = none
  properties (obj fs) = some fs
  properties v = some end

  -- `typeof v === 'object' && v`
  unfoldable pub is_object : Value N → Bool
  is_object (arr vs) = true
  is_object (obj fs) = true
  is_object v = false

  module _ (web : Web N) where
    unfoldable pub is_truthy : Value N → Bool
    is_truthy undefined = false
    is_truthy null = false
    is_truthy (bool b) = b
    is_truthy (num n) = web.is_nonzero n
    is_truthy (str s) = not (is_empty s)
    is_truthy (arr vs) = true
    is_truthy (obj fs) = true

    -- `Number(v) || d`
    unfoldable pub number_or : Value N → ℕ → N
    number_or v d = let n = web.number_of v in if web.is_nonzero n then n else web.number d
