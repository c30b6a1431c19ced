-- ===== src/InboundForm/Prune.antt =====
-- `pruneEmpty` of frontend/src/lib/xray/inbound-form-adapter.ts: properties that are undefined are
-- dropped, at every depth.
use x_ui_glass.Shared.{
  String, Bool, true, false, ◌||◌, ◌≡◌, refl, ap, if◌then◌else◌, str_eq, arith, Bool-cases, inl,
  inr,
}
use x_ui_glass.Json.{
  Value, undefined, null, bool, num, str, arr, obj, Items, nil, cons, Fields, end, field,
}

module _ {N : Type 0} where
  abbrev pub is_undefined : Value N → Bool
  is_undefined undefined = true
  is_undefined v = false

  -- `if (p === undefined) continue; out[k] = p`; an assignment to `__proto__` makes no property.
  abbrev pub keep_defined : String → Value N → Fields N → Fields N
  keep_defined k p rest = if is_undefined p || str_eq k "__proto__" then rest else field k p rest

unfoldable mutual
  pub prune_empty : {N : Type 0} → Value N → Value N
  prune_empty undefined = undefined
  prune_empty null = null
  prune_empty (bool b) = bool b
  prune_empty (num n) = num n
  prune_empty (str s) = str s
  prune_empty (arr vs) = arr (prune_items vs)
  prune_empty (obj fs) = obj (prune_fields fs)

  pub prune_items : {N : Type 0} → Items N → Items N
  prune_items nil = nil
  prune_items (cons v vs) = cons (prune_empty v) (prune_items vs)

  pub prune_fields : {N : Type 0} → Fields N → Fields N
  prune_fields end = end
  prune_fields (field k v fs) = keep_defined k (prune_empty v) (prune_fields fs)

-- No property is undefined, at any depth, and none is named `__proto__`.
unfoldable mutual
  pub IsPruned : {N : Type 0} → Value N → Type 0
  IsPruned undefined = Unit
  IsPruned null = Unit
  IsPruned (bool b) = Unit
  IsPruned (num n) = Unit
  IsPruned (str s) = Unit
  IsPruned (arr vs) = AllPruned vs
  IsPruned (obj fs) = FieldsPruned fs

  pub AllPruned : {N : Type 0} → Items N → Type 0
  AllPruned nil = Unit
  AllPruned (cons v vs) = IsPruned v × AllPruned vs

  pub FieldsPruned : {N : Type 0} → Fields N → Type 0
  FieldsPruned end = Unit
  FieldsPruned (field k v fs) =
      (is_undefined v ≡ false) × (str_eq k "__proto__" ≡ false) × IsPruned v × FieldsPruned fs

module _ {N : Type 0} where
  keep_defined-FieldsPruned :
      (k : String) (p : Value N) (fs : Fields N)
      → IsPruned p
      → FieldsPruned fs
      → FieldsPruned (keep_defined k p fs)
  unfolding FieldsPruned
  keep_defined-FieldsPruned k p fs h hs =
      elim (Bool-cases (is_undefined p || str_eq k "__proto__")) [
        | inl e ↦ rw e hs
        | inr e ↦ rw e (ground arith, ground arith, h, hs)
      ]

  keep_defined_pruned :
      (k : String) (p : Value N) (fs : Fields N)
      → is_undefined p ≡ false
      → str_eq k "__proto__" ≡ false
      → keep_defined k p fs ≡ field k p fs
  keep_defined_pruned k p fs h e = ground arith

mutual
  unfolding prune_empty prune_items prune_fields IsPruned AllPruned FieldsPruned

  prune-IsPruned : {N : Type 0} → (v : Value N) → IsPruned (prune_empty v)
  prune-IsPruned undefined = tt
  prune-IsPruned null = tt
  prune-IsPruned (bool b) = tt
  prune-IsPruned (num n) = tt
  prune-IsPruned (str s) = tt
  prune-IsPruned (arr vs) = prune_items-AllPruned vs
  prune-IsPruned (obj fs) = prune_fields-FieldsPruned fs

  prune_items-AllPruned : {N : Type 0} → (vs : Items N) → AllPruned (prune_items vs)
  prune_items-AllPruned nil = tt
  prune_items-AllPruned (cons v vs) = (prune-IsPruned v, prune_items-AllPruned vs)

  prune_fields-FieldsPruned : {N : Type 0} → (fs : Fields N) → FieldsPruned (prune_fields fs)
  prune_fields-FieldsPruned end = tt
  prune_fields-FieldsPruned (field k v fs) =
      keep_defined-FieldsPruned k (prune_empty v) (prune_fields fs) (prune-IsPruned v)
        (prune_fields-FieldsPruned fs)

-- A pruned value is not changed.
mutual
  unfolding prune_empty prune_items prune_fields IsPruned AllPruned FieldsPruned

  prune_pruned : {N : Type 0} → (v : Value N) → IsPruned v → prune_empty v ≡ v
  prune_pruned undefined h = refl
  prune_pruned null h = refl
  prune_pruned (bool b) h = refl
  prune_pruned (num n) h = refl
  prune_pruned (str s) h = refl
  prune_pruned (arr vs) h = ap arr (prune_items_pruned vs h)
  prune_pruned (obj fs) h = ap obj (prune_fields_pruned fs h)

  prune_items_pruned : {N : Type 0} → (vs : Items N) → AllPruned vs → prune_items vs ≡ vs
  prune_items_pruned nil h = refl
  prune_items_pruned (cons v vs) h = λ i. cons (prune_pruned v h.0 i) (prune_items_pruned vs h.1 i)

  prune_fields_pruned : {N : Type 0} → (fs : Fields N) → FieldsPruned fs → prune_fields fs ≡ fs
  prune_fields_pruned end h = refl
  prune_fields_pruned (field k v fs) h =
      rw (prune_pruned v h.2, prune_fields_pruned fs h.3) (keep_defined_pruned k v fs h.0 h.1)

-- What is pruned holds no undefined property at any depth, and pruning it again changes nothing.
pub prune_empty_lem :
    {N : Type 0} (v : Value N)
    → IsPruned (prune_empty v) × (prune_empty (prune_empty v) ≡ prune_empty v)
prune_empty_lem v = (prune-IsPruned v, prune_pruned (prune_empty v) (prune-IsPruned v))
