-- ===== src/Coerce.antt =====
-- frontend/src/lib/xray/outbound-form-adapter.ts, the functions that read a value of unknown shape
-- as an object, a list, a text, a number, a Boolean or a port.
pub mod Sample
use x_ui_glass.Shared.{
  ℕ, String, Bool, true, false, not, ◌&&◌, ◌||◌, Option, none, some, List, [], ◌∷◌, map,
  if◌then◌else◌, is_empty, leb, ◌==◌, str_eq, trim, maybe, ◌≡◌, refl, all, arith, eq_iff,
}
use x_ui_glass.Json.{
  Value, undefined, null, bool, num, str, arr, obj, Items, nil, cons, Fields, end, items, of_items,
  texts,
}
use x_ui_glass.Platform.{Web}

-- What the form adapters ask of numbers and of `String` besides: `nat_of n` is the natural number
-- that `n` is, if it is one, and `text_of v` is `String(v)`.
pub record Runtime (N : Type 0) : Type 0 where
  pub web : Web N
  pub nat_of : N → Option ℕ
  pub text_of : Value N → String

module _ {N : Type 0} where
  -- `asObject`
  unfoldable pub as_object : Value N → Fields N
  as_object (obj fs) = fs
  as_object v = end

  -- `asArray`
  unfoldable pub as_array : Value N → List (Value N)
  unfolding items
  as_array (arr vs) = items vs
  as_array v = []

  -- `xs[0]`
  abbrev pub first : List (Value N) → Value N
  first [] = undefined
  first (v ∷ vs) = v

  -- `asString` with a fallback
  unfoldable pub as_string_or : Value N → String → String
  as_string_or (str s) d = s
  as_string_or v d = d

  abbrev pub as_string : Value N → String
  as_string v = as_string_or v ""

  -- `asBool`
  unfoldable pub as_bool : Value N → Bool
  as_bool (bool b) = b
  as_bool v = false

  -- `asArray(v).map((x) => asString(x))`
  abbrev pub as_strings : Value N → List String
  as_strings v = map as_string (as_array v)

  -- `s || undefined`, and `xs.length > 0 ? xs : undefined`
  abbrev pub text_or_undefined : String → Value N
  text_or_undefined s = if is_empty s then undefined else str s

  abbrev pub texts_or_undefined : List String → Value N
  texts_or_undefined [] = undefined
  texts_or_undefined (s ∷ ss) = arr (texts (s ∷ ss))

module _ (N : Type 0) where
  -- A list of texts is read back.
  pub as_strings-texts : (ss : List String) → as_strings {N = N} (arr (texts ss)) ≡ ss
  unfolding as_array as_string_or items texts
  as_strings-texts [] = refl
  as_strings-texts (s ∷ ss) = λ i. s ∷ as_strings-texts ss i

  pub as_strings-or_undefined : (ss : List String) → as_strings {N = N} (texts_or_undefined ss) ≡ ss
  unfolding as_array
  as_strings-or_undefined [] = refl
  as_strings-or_undefined (s ∷ ss) = as_strings-texts (s ∷ ss)

  pub as_string-or_undefined : (s : String) → as_string {N = N} (text_or_undefined s) ≡ s
  unfolding as_string_or
  as_string-or_undefined s = ground (arith, eq_iff s "")

module _ {N : Type 0} (rt : Runtime N) where
  -- `asNumber`
  unfoldable pub as_number : Value N → N → N
  unfolding trim
  as_number (num n) d = if rt.web.is_finite n then n else d
  as_number (str s) d =
      let n = rt.web.number_of (str s) in
      if not (is_empty (trim s)) && rt.web.is_finite n then n else d
  as_number v d = d

  -- `Number.isInteger(n) && n >= lo && n <= hi`
  abbrev pub is_between : ℕ → ℕ → N → Bool
  is_between lo hi n = maybe (rt.nat_of n) false (λ k. leb lo k && leb k hi)

  -- `n === k`
  abbrev pub is_number : N → ℕ → Bool
  is_number n k = maybe (rt.nat_of n) false (λ m. m == k)

  abbrev pub is_port : N → Bool
  is_port = is_between 1 65535

  -- `asPort`
  unfoldable pub as_port : Value N → N → N
  unfolding as_number
  as_port v d = let n = as_number v d in if is_port n then n else d

  -- `Number.isInteger(n) && n > 0`
  abbrev pub is_positive_integer : Value N → Bool
  is_positive_integer (num n) = maybe (rt.nat_of n) false (λ k. leb 1 k)
  is_positive_integer v = false

  -- `n || undefined`
  abbrev pub number_or_undefined : N → Value N
  number_or_undefined n = if rt.web.is_nonzero n then num n else undefined

  -- A port that is read is a port, whatever stands there, if the fallback is one.
  pub as_port-is_port : (v : Value N) (d : N) → is_port d ≡ true → is_port (as_port v d) ≡ true
  unfolding as_port
  as_port-is_port v d h = ground arith

  pub as_number-num : (n d : N) → rt.web.is_finite n ≡ true → as_number (num n) d ≡ n
  unfolding as_number
  as_number-num n d h = rw h refl

  pub as_port-num : (n d : N) → rt.web.is_finite n ≡ true → is_port n ≡ true → as_port (num n) d ≡ n
  unfolding as_port
  as_port-num n d h p = rw h (rw p refl)

  pub as_number-or_undefined :
      (n d : N)
      → rt.web.is_finite n ≡ true
      → (rt.web.is_nonzero n ≡ false → n ≡ d)
      → as_number (number_or_undefined n) d ≡ n
  unfolding as_number
  as_number-or_undefined n d h z = ground arith
