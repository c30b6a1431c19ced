-- ===== src/Shared/Property/Overwrite.antt =====
-- Assignments that another one takes back: the last of two counts, and a property that is deleted
-- might as well not have been set.
use Prim.Native.Nat.{ℕ}
use Prim.Native.String.{String}
use mathlib.Core.Path.{◌≡◌, refl, sym, ap, ◌∙◌}
use mathlib.Core.Logic.{inl, inr}
use mathlib.Core.Option.{Option, none, some}
use mathlib.Core.List.{List, [], ◌∷◌, ◌++◌}
use native.Mathlib.Omega.{arith}
use text.Mathlib.Text.{◌==◌ as str_eq}
use text.Mathlib.TextEquality.{eq_iff}
use x_ui_glass.Shared.Tests.{if◌then◌else◌, Option-cases}
use x_ui_glass.Shared.Property.{
  lookup, insert, remove, replace, place, insert_index, index_of, lookup-insert,
}

module _ {ℓ} {V : Type ℓ} where
  remove-append :
      (k : String) (v : V) (m : List (String × V)) → remove k (m ++ (k, v) ∷ []) ≡ remove k m
  unfolding remove
  remove-append k v [] = ground (arith, eq_iff k k)
  remove-append k v ((j, w) ∷ m) = ground (arith, remove-append k v m)

  remove-insert_index :
      (n : ℕ) (k : String) (v : V) (m : List (String × V))
      → remove k (insert_index n k v m) ≡ remove k m
  unfolding remove insert_index
  remove-insert_index n k v [] = ground (arith, eq_iff k k)
  remove-insert_index n k v ((j, w) ∷ m) = ground (arith, eq_iff k k, remove-insert_index n k v m)

  remove-replace :
      (k : String) (v : V) (m : List (String × V)) → remove k (replace k v m) ≡ remove k m
  unfolding remove replace
  remove-replace k v [] = refl
  remove-replace k v ((j, w) ∷ m) = ground (arith, eq_iff j k, eq_iff k k, remove-replace k v m)

  remove-place :
      (o : Option ℕ) (k : String) (v : V) (m : List (String × V))
      → remove k (place o k v m) ≡ remove k m
  unfolding place
  remove-place none k v m = remove-append k v m
  remove-place (some n) k v m = remove-insert_index n k v m

  pub remove-insert :
      (k : String) (v : V) (m : List (String × V)) → remove k (insert k v m) ≡ remove k m
  unfolding insert
  remove-insert k v m = elim (Option-cases (lookup k m)) [
    | inl e ↦ rw e (remove-place (index_of k) k v m)
    | inr (w, e) ↦ rw e (remove-replace k v m)
  ]

  replace-append :
      (k : String) (v w : V) (m : List (String × V))
      → lookup k m ≡ none
      → replace k v (m ++ (k, w) ∷ []) ≡ m ++ (k, v) ∷ []
  unfolding lookup replace
  replace-append k v w [] h = ground (arith, eq_iff k k)
  replace-append k v w ((j, u) ∷ m) h = ground (arith, replace-append k v w m)

  replace-insert_index :
      (n : ℕ) (k : String) (v w : V) (m : List (String × V))
      → lookup k m ≡ none
      → replace k v (insert_index n k w m) ≡ insert_index n k v m
  unfolding lookup replace insert_index
  replace-insert_index n k v w [] h = ground (arith, eq_iff k k)
  replace-insert_index n k v w ((j, u) ∷ m) h =
      ground (arith, eq_iff k k, replace-insert_index n k v w m)

  replace-place :
      (o : Option ℕ) (k : String) (v w : V) (m : List (String × V))
      → lookup k m ≡ none
      → replace k v (place o k w m) ≡ place o k v m
  unfolding place
  replace-place none k v w m h = replace-append k v w m h
  replace-place (some n) k v w m h = replace-insert_index n k v w m h

  replace-replace :
      (k : String) (v w : V) (m : List (String × V)) → replace k v (replace k w m) ≡ replace k v m
  unfolding replace
  replace-replace k v w [] = refl
  replace-replace k v w ((j, u) ∷ m) = ground (arith, eq_iff k k, replace-replace k v w m)

  same :
      (k : String) (w : V) (m : List (String × V))
      → (if str_eq k k then some w else lookup k m) ≡ some w
  same k w m = rw ((eq_iff k k).1 refl) refl

  insert_new :
      (k : String) (v : V) (m : List (String × V))
      → lookup k m ≡ none
      → insert k v m ≡ place (index_of k) k v m
  unfolding insert
  insert_new k v m e = rw e refl

  insert_old :
      (k : String) (v w : V) (m : List (String × V))
      → lookup k m ≡ some w
      → insert k v m ≡ replace k v m
  unfolding insert
  insert_old k v w m e = rw e refl

  pub insert-insert :
      (k : String) (v w : V) (m : List (String × V)) → insert k v (insert k w m) ≡ insert k v m
  insert-insert k v w m = elim (Option-cases (lookup k m)) [
    | inl e ↦
        insert_old k v w (insert k w m) (lookup-insert k k w m ∙ same k w m)
        ∙ ap (replace k v) (insert_new k w m e)
        ∙ replace-place (index_of k) k v w m e
        ∙ sym (insert_new k v m e)
    | inr (u, e) ↦
        insert_old k v w (insert k w m) (lookup-insert k k w m ∙ same k w m)
        ∙ ap (replace k v) (insert_old k w u m e)
        ∙ replace-replace k v w m
        ∙ sym (insert_old k v u m e)
  ]
