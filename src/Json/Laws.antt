-- ===== src/Json/Laws.antt =====
-- What is read of an object after an assignment or a deletion.
use x_ui_glass.Shared.{String, ◌≡◌, refl, arith, eq_iff, str_eq, if◌then◌else◌, none}
use x_ui_glass.Shared.Property.{
  lookup, insert, remove, lookup-insert, lookup-remove, Distinct, insert-Distinct, remove-Distinct,
}
use x_ui_glass.Shared.Property.Overwrite.{remove-insert, insert-insert}
use x_ui_glass.Json.{
  Value, undefined, Fields, prop, with_prop, without_prop, entries, entries-of_entries,
}

module _ {N : Type 0} where
  pub prop-with_prop :
      (j k : String) (v : Value N) (fs : Fields N)
      → prop (with_prop j v fs) k ≡ (if str_eq j k then v else prop fs k)
  unfolding prop with_prop
  prop-with_prop j k v fs =
      rw (entries-of_entries (insert j v (entries fs)), lookup-insert j k v (entries fs))
        (ground arith)

  pub prop-with_prop_self :
      (k : String) (v : Value N) (fs : Fields N) → prop (with_prop k v fs) k ≡ v
  prop-with_prop_self k v fs = rw (prop-with_prop k k v fs, (eq_iff k k).1 refl) refl

  pub lookup-without_prop :
      (j k : String) (fs : Fields N)
      → lookup k (entries (without_prop j fs))
        ≡ (if str_eq j k then none else lookup k (entries fs))
  unfolding without_prop
  lookup-without_prop j k fs =
      rw (entries-of_entries (remove j (entries fs))) (lookup-remove j k (entries fs))

  pub prop-without_prop :
      (j k : String) (fs : Fields N)
      → prop (without_prop j fs) k ≡ (if str_eq j k then undefined else prop fs k)
  unfolding prop
  prop-without_prop j k fs = rw (lookup-without_prop j k fs) (ground arith)

  pub with_prop-Distinct :
      (j : String) (v : Value N) (fs : Fields N)
      → Distinct (entries fs)
      → Distinct (entries (with_prop j v fs))
  unfolding with_prop
  with_prop-Distinct j v fs d =
      rw (entries-of_entries (insert j v (entries fs))) (insert-Distinct j v (entries fs) d)

  pub without_prop-Distinct :
      (j : String) (fs : Fields N) → Distinct (entries fs) → Distinct (entries (without_prop j fs))
  unfolding without_prop
  without_prop-Distinct j fs d =
      rw (entries-of_entries (remove j (entries fs))) (remove-Distinct j (entries fs) d)

  pub without-with_prop :
      (k : String) (v : Value N) (fs : Fields N)
      → without_prop k (with_prop k v fs) ≡ without_prop k fs
  unfolding without_prop with_prop
  without-with_prop k v fs =
      rw (entries-of_entries (insert k v (entries fs)), remove-insert k v (entries fs)) refl

  pub with-with_prop :
      (k : String) (v w : Value N) (fs : Fields N)
      → with_prop k v (with_prop k w fs) ≡ with_prop k v fs
  unfolding with_prop
  with-with_prop k v w fs =
      rw (entries-of_entries (insert k w (entries fs)), insert-insert k v w (entries fs)) refl
