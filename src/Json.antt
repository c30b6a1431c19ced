-- ===== src/Json.antt =====
-- The values of the language that the program reads as `unknown`, over a type of numbers: the
-- program hands numbers on, and what it asks of them is a parameter where it does.
pub mod Laws
use x_ui_glass.Shared.{String, ◌≡◌, refl, Bool, List, [], ◌∷◌, Option, none, some}
use x_ui_glass.Shared.Property.{lookup, insert, remove}

mutual
  pub data Value (N : Type 0) : Type 0 where
    undefined null : Value N
    bool : Bool → Value N
    num : N → Value N
    str : String → Value N
    arr : Items N → Value N
    obj : Fields N → Value N

  pub data Items (N : Type 0) : Type 0 where
    nil : Items N
    cons : Value N → Items N → Items N

  pub data Fields (N : Type 0) : Type 0 where
    end : Fields N
    field : String → Value N → Fields N → Fields N

module _ {N : Type 0} where
  unfoldable pub items : Items N → List (Value N)
  items nil = []
  items (cons v vs) = v ∷ items vs

  unfoldable pub of_items : List (Value N) → Items N
  of_items [] = nil
  of_items (v ∷ vs) = cons v (of_items vs)

  -- `Object.entries`
  unfoldable pub entries : Fields N → List (String × Value N)
  entries end = []
  entries (field k v fs) = (k, v) ∷ entries fs

  unfoldable pub of_entries : List (String × Value N) → Fields N
  of_entries [] = end
  of_entries ((k, v) ∷ m) = field k v (of_entries m)

  pub entries-of_entries : (m : List (String × Value N)) → entries (of_entries m) ≡ m
  unfolding entries of_entries
  entries-of_entries [] = refl
  entries-of_entries ((k, v) ∷ m) = λ i. (k, v) ∷ entries-of_entries m i

  abbrev pub or_undefined : Option (Value N) → Value N
  or_undefined none = undefined
  or_undefined (some v) = v

  -- `o[k]` of a plain object, for a name that no object inherits
  unfoldable pub prop : Fields N → String → Value N
  unfolding lookup entries
  prop fs k = or_undefined (lookup k (entries fs))

  -- `o[k] = v`
  unfoldable pub with_prop : String → Value N → Fields N → Fields N
  unfolding insert entries of_entries
  with_prop k v fs = of_entries (insert k v (entries fs))

  -- `delete o[k]`
  unfoldable pub without_prop : String → Fields N → Fields N
  unfolding remove entries of_entries
  without_prop k fs = of_entries (remove k (entries fs))

  unfoldable pub texts : List String → Items N
  texts [] = nil
  texts (s ∷ ss) = cons (str s) (texts ss)
