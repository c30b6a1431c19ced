-- ===== src/Shared/Property.antt =====
-- The own properties of a plain object, in the order of `Object.keys`, and what `in` and an
-- assignment do with the names that every object inherits.
pub mod Overwrite
use Prim.Native.Nat.{ℕ, ◌+◌, ◌-◌, ◌*◌}
use Prim.Native.Char.{code}
use Prim.Native.String.{String}
use mathlib.Core.Path.{◌≡◌, refl}
use mathlib.Core.Bool.{Bool, true, false, ◌&&◌, ◌||◌, not}
use mathlib.Core.Logic.{inl, inr}
use mathlib.Core.Option.{Option, none, some}
use mathlib.Core.List.{List, [], ◌∷◌, ◌++◌}
use native.Mathlib.Omega.{arith}
use text.Mathlib.Text.{◌==◌ as str_eq}
use text.Mathlib.TextEquality.{eq_iff}
use x_ui_glass.Shared.Tests.{ltb, if◌then◌else◌, is_some, Option-cases}
use x_ui_glass.Shared.Lists.{includes}
use x_ui_glass.Shared.Text.{all_digits, is_empty}

digits_value : ℕ → String → ℕ
digits_value n String.[] = n
digits_value n (String.◌∷◌ c s) = digits_value (n * 10 + (code c - 48)) s

starts_with_zero : String → Bool
starts_with_zero (String.◌∷◌ c s) = str_eq (String.◌∷◌ c String.[]) "0"
starts_with_zero s = false

-- An array index: a decimal numeral without leading zeros, below 2 ^ 32 - 1.
unfoldable pub index_of : String → Option ℕ
unfolding digits_value starts_with_zero all_digits
index_of k =
    let n = digits_value 0 k in
    if not (is_empty k)
      && all_digits k
      && (str_eq k "0" || not (starts_with_zero k))
      && ltb n 4294967295
    then some n
    else none

abbrev before : Option ℕ → ℕ → Bool
before none n = false
before (some m) n = ltb m n

module _ {ℓ} {V : Type ℓ} where
  unfoldable pub lookup : String → List (String × V) → Option V
  lookup k [] = none
  lookup k ((j, v) ∷ m) = if str_eq j k then some v else lookup k m

  -- The array indices stand first, in their order.
  insert_index : ℕ → String → V → List (String × V) → List (String × V)
  insert_index n k v [] = (k, v) ∷ []
  insert_index n k v ((j, w) ∷ m) =
      let later = (j, w) ∷ insert_index n k v m in
      if before (index_of j) n then later else (k, v) ∷ (j, w) ∷ m

  replace : String → V → List (String × V) → List (String × V)
  replace k v [] = []
  replace k v ((j, w) ∷ m) = if str_eq j k then (k, v) ∷ m else (j, w) ∷ replace k v m

  place : Option ℕ → String → V → List (String × V) → List (String × V)
  place none k v m = m ++ (k, v) ∷ []
  place (some n) k v m = insert_index n k v m

  -- `m[k] = v` for a key other than `__proto__`
  unfoldable pub insert : String → V → List (String × V) → List (String × V)
  unfolding lookup insert_index replace place index_of
  insert k v m = if is_some (lookup k m) then replace k v m else place (index_of k) k v m

  -- `delete m[k]`
  unfoldable pub remove : String → List (String × V) → List (String × V)
  remove k [] = []
  remove k ((j, w) ∷ m) = let rest = remove k m in if str_eq j k then rest else (j, w) ∷ rest

  lookup-insert_index :
      (n : ℕ) (k j : String) (v : V) (m : List (String × V))
      → lookup k m ≡ none
      → lookup j (insert_index n k v m) ≡ (if str_eq k j then some v else lookup j m)
  unfolding lookup insert_index
  lookup-insert_index n k j v [] h = refl
  lookup-insert_index n k j v ((i, w) ∷ m) h =
      ground (arith, eq_iff k j, eq_iff i k, eq_iff i j, lookup-insert_index n k j v m)

  lookup-replace :
      (k j : String) (v : V) (m : List (String × V))
      → is_some (lookup k m) ≡ true
      → lookup j (replace k v m) ≡ (if str_eq k j then some v else lookup j m)
  unfolding lookup replace
  lookup-replace k j v [] h = cc
  lookup-replace k j v ((i, w) ∷ m) h =
      ground (arith, eq_iff k j, eq_iff i k, eq_iff i j, lookup-replace k j v m)

  lookup-append :
      (k j : String) (v : V) (m : List (String × V))
      → lookup k m ≡ none
      → lookup j (m ++ (k, v) ∷ []) ≡ (if str_eq k j then some v else lookup j m)
  unfolding lookup
  lookup-append k j v [] h = refl
  lookup-append k j v ((i, w) ∷ m) h =
      ground (arith, eq_iff k j, eq_iff i k, eq_iff i j, lookup-append k j v m)

  lookup-place :
      (o : Option ℕ) (k j : String) (v : V) (m : List (String × V))
      → lookup k m ≡ none
      → lookup j (place o k v m) ≡ (if str_eq k j then some v else lookup j m)
  unfolding place
  lookup-place none k j v m h = lookup-append k j v m h
  lookup-place (some n) k j v m h = lookup-insert_index n k j v m h

  -- After an assignment a key reads the new value, and every other key what it read before.
  pub lookup-insert :
      (k j : String) (v : V) (m : List (String × V))
      → lookup j (insert k v m) ≡ (if str_eq k j then some v else lookup j m)
  unfolding insert
  lookup-insert k j v m = elim (Option-cases (lookup k m)) [
    | inl e ↦ rw e (lookup-place _ k j v m e)
    | inr (w, e) ↦ rw e (lookup-replace k j v m (rw e))
  ]

  pub lookup-remove :
      (k j : String) (m : List (String × V))
      → lookup j (remove k m) ≡ (if str_eq k j then none else lookup j m)
  unfolding lookup remove
  lookup-remove k j [] = ground arith
  lookup-remove k j ((i, w) ∷ m) =
      ground (arith, eq_iff i k, eq_iff i j, eq_iff k j, lookup-remove k j m)

  place_first : (o : Option ℕ) (k : String) (v : V) → place o k v [] ≡ (k, v) ∷ []
  unfolding place insert_index
  place_first none k v = refl
  place_first (some n) k v = refl

  pub insert_first : (k : String) (v : V) → insert k v [] ≡ (k, v) ∷ []
  unfolding insert
  insert_first k v = place_first (index_of k) k v

  -- No key stands twice.
  abbrev pub Distinct : List (String × V) → Type ℓ
  Distinct [] = Unit
  Distinct ((k, v) ∷ m) = (lookup k m ≡ none) × Distinct m

  insert_index-Distinct :
      (n : ℕ) (k : String) (v : V) (m : List (String × V))
      → lookup k m ≡ none
      → Distinct m
      → Distinct (insert_index n k v m)
  unfolding lookup insert_index
  insert_index-Distinct n k v [] h d = (refl, tt)
  insert_index-Distinct n k v ((i, w) ∷ m) h d =
      ground (
        arith,
        eq_iff i k,
        eq_iff k i,
        insert_index-Distinct n k v m,
        lookup-insert_index n k i v m,
      )

  replace_absent :
      (k : String) (v : V) (m : List (String × V)) → lookup k m ≡ none → replace k v m ≡ m
  unfolding lookup replace
  replace_absent k v [] h = refl
  replace_absent k v ((i, w) ∷ m) h = ground (arith, replace_absent k v m)

  replace-Distinct :
      (k : String) (v : V) (m : List (String × V)) → Distinct m → Distinct (replace k v m)
  unfolding lookup replace
  replace-Distinct k v [] d = tt
  replace-Distinct k v ((i, w) ∷ m) d = elim (Option-cases (lookup k m)) [
    | inl e ↦ ground (arith, eq_iff i k, replace-Distinct k v m, replace_absent k v m e)
    | inr (u, e) ↦
        ground (arith, eq_iff i k, eq_iff k i, replace-Distinct k v m, lookup-replace k i v m)
  ]

  append-Distinct :
      (k : String) (v : V) (m : List (String × V))
      → lookup k m ≡ none
      → Distinct m
      → Distinct (m ++ (k, v) ∷ [])
  unfolding lookup
  append-Distinct k v [] h d = (refl, tt)
  append-Distinct k v ((i, w) ∷ m) h d =
      ground (arith, eq_iff i k, eq_iff k i, append-Distinct k v m, lookup-append k i v m)

  place-Distinct :
      (o : Option ℕ) (k : String) (v : V) (m : List (String × V))
      → lookup k m ≡ none
      → Distinct m
      → Distinct (place o k v m)
  unfolding place
  place-Distinct none k v m h d = append-Distinct k v m h d
  place-Distinct (some n) k v m h d = insert_index-Distinct n k v m h d

  pub insert-Distinct :
      (k : String) (v : V) (m : List (String × V)) → Distinct m → Distinct (insert k v m)
  unfolding insert
  insert-Distinct k v m d = elim (Option-cases (lookup k m)) [
    | inl e ↦ rw e (place-Distinct _ k v m e d)
    | inr (w, e) ↦ rw e (replace-Distinct k v m d)
  ]

-- The names that an object inherits from `Object.prototype`.
abbrev pub inherited : List String
inherited =
    "constructor" ∷ "__defineGetter__" ∷ "__defineSetter__" ∷ "hasOwnProperty" ∷ "__lookupGetter__"
    ∷ "__lookupSetter__" ∷ "isPrototypeOf" ∷ "propertyIsEnumerable" ∷ "toString" ∷ "valueOf"
    ∷ "__proto__" ∷ "toLocaleString" ∷ []

module _ {ℓ} {V : Type ℓ} where
  -- `k in m`
  unfoldable pub has_property : String → List (String × V) → Bool
  unfolding includes
  has_property k m = is_some (lookup k m) || includes inherited k

  -- `m[k] = v` for a value that is no object: the setter of `__proto__` ignores it.
  unfoldable pub assign : String → V → List (String × V) → List (String × V)
  assign k v m = if str_eq k "__proto__" then m else insert k v m

module _ {ℓ} {V : Type ℓ} where
  -- `Map.prototype.set`, which keeps the order of insertion whatever the key.
  unfoldable pub map_set : String → V → List (String × V) → List (String × V)
  unfolding lookup replace
  map_set k v m = if is_some (lookup k m) then replace k v m else m ++ (k, v) ∷ []

  pub lookup-map_set :
      (k j : String) (v : V) (m : List (String × V))
      → lookup j (map_set k v m) ≡ (if str_eq k j then some v else lookup j m)
  unfolding map_set
  lookup-map_set k j v m = elim (Option-cases (lookup k m)) [
    | inl e ↦ rw e (lookup-append k j v m e)
    | inr (w, e) ↦ rw e (lookup-replace k j v m (rw e))
  ]

  pub map_set-Distinct :
      (k : String) (v : V) (m : List (String × V)) → Distinct m → Distinct (map_set k v m)
  unfolding map_set
  map_set-Distinct k v m d = elim (Option-cases (lookup k m)) [
    | inl e ↦ rw e (append-Distinct k v m e d)
    | inr (w, e) ↦ rw e (replace-Distinct k v m d)
  ]

  -- A new key of a map stands at its end.
  pub map_set_new :
      (k : String) (v : V) (m : List (String × V))
      → lookup k m ≡ none
      → map_set k v m ≡ m ++ (k, v) ∷ []
  unfolding map_set
  map_set_new k v m e = rw e refl

  lookup_inside :
      (m : List (String × V)) (j k : String) (v : V) (n : List (String × V))
      → lookup j (m ++ (k, v) ∷ n) ≡ none
      → str_eq k j ≡ false
  unfolding lookup
  lookup_inside [] j k v n h = ground arith
  lookup_inside ((i, w) ∷ m) j k v n h = ground (arith, lookup_inside m j k v n)

  pub Distinct-middle :
      (m : List (String × V)) (k : String) (v : V) (n : List (String × V))
      → Distinct (m ++ (k, v) ∷ n)
      → lookup k m ≡ none
  unfolding lookup
  Distinct-middle [] k v n d = refl
  Distinct-middle ((j, w) ∷ m) k v n d =
      ground
        (arith, eq_iff j k, eq_iff k j, Distinct-middle m k v n d.1, lookup_inside m j k v n d.0)

  pub remove-Distinct : (k : String) (m : List (String × V)) → Distinct m → Distinct (remove k m)
  unfolding lookup remove
  remove-Distinct k [] d = tt
  remove-Distinct k ((j, w) ∷ m) d =
      ground (arith, eq_iff j k, eq_iff k j, remove-Distinct k m, lookup-remove k j m)
