-- ===== src/Headers/RoundTrip.antt =====
-- What a header map keeps of a header list, and what comes back of it.
use mathlib.Core.Path.{subst}
use x_ui_glass.Shared.{
  String, Bool, true, false, ◌&&◌, not, ◌≡◌, refl, Option, none, some, List, [], ◌∷◌, ◌++◌,
  if◌then◌else◌, arith, str_eq, eq_iff, is_some, is_empty, if_intro, includes, Bool-cases, inl, inr,
  sym, ap, ◌∙◌,
}
use x_ui_glass.Shared.Property.{
  lookup, lookup-insert, insert, insert_first, has_property, assign, inherited,
}
use x_ui_glass.Headers.{
  entry, HeaderEntry, HeaderValue, one, many, HeaderMap, is_blank, add_header, add_headers, collide,
  to_v2_headers,
}

-- The values of a list's headers with a name, in order; a blank header has none.
unfoldable pub values : String → List HeaderEntry → List String
values name [] = []
values name (h ∷ hs) =
    let rest = values name hs in
    if not (is_blank h) && str_eq h.name name then h.value ∷ rest else rest

abbrev pub packed : List String → Option HeaderValue
packed [] = none
packed (v ∷ vs) = some (many (v ∷ vs))

packed-append : (v : String) (vs : List String) → packed (vs ++ v ∷ []) ≡ some (many (vs ++ v ∷ []))
packed-append v [] = refl
packed-append v (w ∷ vs) = refl

not_proto : (name : String) → includes inherited name ≡ false → str_eq name "__proto__" ≡ false
unfolding includes
not_proto name h = ground (arith, eq_iff name "__proto__")

-- An assignment leaves the other keys as they were.
assign_other :
    (k j : String) (v : HeaderValue) (m : HeaderMap)
    → str_eq k j ≡ false
    → lookup j (assign k v m) ≡ lookup j m
unfolding assign
assign_other k j v m e =
    if_intro (λ n. lookup j n ≡ lookup j m) (str_eq k "__proto__") (λ _. refl)
      (λ _. lookup-insert k j v m ∙ rw e refl)

collide_other :
    (as_list : Bool) (existing : Option HeaderValue) (h : HeaderEntry) (name : String)
    (out : HeaderMap)
    → str_eq h.name name ≡ false
    → lookup name (collide as_list existing h out) ≡ lookup name out
unfolding collide
collide_other false existing h name out e = assign_other h.name name _ out e
collide_other true none h name out e = assign_other h.name name _ out e
collide_other true (some (one s)) h name out e = assign_other h.name name _ out e
collide_other true (some (many vs)) h name out e = lookup-insert h.name name _ out ∙ rw e refl

add_header_other :
    (as_list : Bool) (h : HeaderEntry) (name : String) (out : HeaderMap)
    → str_eq h.name name ≡ false
    → lookup name (add_header as_list h out) ≡ lookup name out
unfolding add_header
add_header_other as_list h name out e =
    if_intro (λ n. lookup name n ≡ lookup name out) (is_blank h) (λ _. refl)
      (λ _.
        if_intro (λ n. lookup name n ≡ lookup name out) (has_property h.name out)
          (λ _. collide_other as_list _ h name out e) (λ _. assign_other h.name name _ out e))

has_property_own :
    (name : String) (out : HeaderMap)
    → includes inherited name ≡ false
    → has_property name out ≡ is_some (lookup name out)
unfolding has_property
has_property_own name out h = rw h (ground arith)

insert_same : (k : String) (v : HeaderValue) (m : HeaderMap) → lookup k (insert k v m) ≡ some v
insert_same k v m = lookup-insert k k v m ∙ ground (arith, eq_iff k k)

assign_same :
    (k : String) (v : HeaderValue) (m : HeaderMap)
    → includes inherited k ≡ false
    → lookup k (assign k v m) ≡ some v
unfolding assign
assign_same k v m i =
    if_intro (λ n. lookup k n ≡ some v) (str_eq k "__proto__") (λ p. cc (sym p ∙ not_proto k i))
      (λ _. insert_same k v m)

add_header_eq :
    (as_list : Bool) (h : HeaderEntry) (out : HeaderMap)
    → is_blank h ≡ false
    → add_header as_list h out ≡ (
        if has_property h.name out
        then collide as_list (lookup h.name out) h out
        else assign h.name (if as_list then many (h.value ∷ []) else one h.value) out)
unfolding add_header
add_header_eq as_list h out b =
    if_intro
      (λ m. m ≡ (
        if has_property h.name out
        then collide as_list (lookup h.name out) h out
        else assign h.name (if as_list then many (h.value ∷ []) else one h.value) out))
      (is_blank h) (λ p. cc (sym p ∙ b)) (λ _. refl)

add_header_blank :
    (as_list : Bool) (h : HeaderEntry) (out : HeaderMap)
    → is_blank h ≡ true
    → add_header as_list h out ≡ out
unfolding add_header
add_header_blank as_list h out b =
    if_intro (λ m. m ≡ out) (is_blank h) (λ _. refl) (λ p. cc (sym p ∙ b))

collide_many :
    (vs : List String) (h : HeaderEntry) (out : HeaderMap)
    → collide true (some (many vs)) h out ≡ insert h.name (many (vs ++ h.value ∷ [])) out
unfolding collide
collide_many vs h out = refl

add_header_same :
    (h : HeaderEntry) (out : HeaderMap) (vs : List String)
    → is_blank h ≡ false
    → includes inherited h.name ≡ false
    → lookup h.name out ≡ packed vs
    → lookup h.name (add_header true h out) ≡ some (many (vs ++ h.value ∷ []))
add_header_same h out [] b i e =
    rw (add_header_eq true h out b, has_property_own h.name out i, e)
      (assign_same h.name (many (h.value ∷ [])) out i)
add_header_same h out (v ∷ vs) b i e =
    rw (add_header_eq true h out b, has_property_own h.name out i, e, collide_many (v ∷ vs) h out)
      (insert_same h.name (many ((v ∷ vs) ++ h.value ∷ [])) out)

append_assoc : (xs ys zs : List String) → (xs ++ ys) ++ zs ≡ xs ++ (ys ++ zs)
append_assoc [] ys zs = refl
append_assoc (x ∷ xs) ys zs = λ i. x ∷ append_assoc xs ys zs i

append_nil : (xs : List String) → xs ++ [] ≡ xs
append_nil [] = refl
append_nil (x ∷ xs) = λ i. x ∷ append_nil xs i

-- One header adds its value to those of its name.
lookup-add_header :
    (h : HeaderEntry) (name : String) (out : HeaderMap) (vs : List String)
    → includes inherited name ≡ false
    → lookup name out ≡ packed vs
    → lookup name (add_header true h out) ≡ packed (vs ++ values name (h ∷ []))
unfolding values
lookup-add_header h name out vs i e = elim (Bool-cases (is_blank h)) [
  | inl b ↦ rw (add_header_blank true h out b, b, append_nil vs) e
  | inr b ↦ elim (Bool-cases (str_eq h.name name)) [
    | inl k ↦
        let same : h.name ≡ name = (eq_iff h.name name).0 k in
        rw (b, k, packed-append h.value vs)
          (subst (λ n. lookup n (add_header true h out) ≡ some (many (vs ++ h.value ∷ []))) same
            (add_header_same h out vs b (ap (includes inherited) same ∙ i)
              (ap (λ n. lookup n out) same ∙ e)))
    | inr k ↦ rw (b, k, append_nil vs) (add_header_other true h name out k ∙ e)
  ]
]

values-cons :
    (name : String) (h : HeaderEntry) (hs : List HeaderEntry)
    → values name (h ∷ hs) ≡ values name (h ∷ []) ++ values name hs
unfolding values
values-cons name h hs = ground arith

lookup-add_headers :
    (hs : List HeaderEntry) (name : String) (out : HeaderMap) (vs : List String)
    → includes inherited name ≡ false
    → lookup name out ≡ packed vs
    → lookup name (add_headers true hs out) ≡ packed (vs ++ values name hs)
unfolding add_headers
lookup-add_headers [] name out vs i e = unfold values in e ∙ ap packed (sym (append_nil vs))
lookup-add_headers (h ∷ hs) name out vs i e =
    lookup-add_headers hs name _ (vs ++ values name (h ∷ [])) i
      (lookup-add_header h name out vs i e)
    ∙ ap packed (
        append_assoc vs (values name (h ∷ [])) (values name hs)
        ∙ ap (λ t. vs ++ t) (sym (values-cons name h hs)))

-- For a name that no object inherits, the map of lists has the values of that name's headers, in
-- their order, and no entry if there are none; blank headers are left out.
pub lookup-to_v2_headers :
    (hs : List HeaderEntry) (name : String)
    → includes inherited name ≡ false
    → lookup name (to_v2_headers hs true) ≡ packed (values name hs)
unfolding to_v2_headers
lookup-to_v2_headers hs name i = lookup-add_headers hs name [] [] i refl

assign_first :
    (k : String) (v : HeaderValue) → str_eq k "__proto__" ≡ false → assign k v [] ≡ (k, v) ∷ []
unfolding assign
assign_first k v p =
    if_intro (λ m. m ≡ (k, v) ∷ []) (str_eq k "__proto__") (λ q. cc (sym q ∙ p))
      (λ _. insert_first k v)

-- A first header whose name every object inherits, other than `__proto__`, gets a text in the map
-- of lists where every other name gets a list.
pub to_v2_headers-inherited :
    (name value : String)
    → includes inherited name ≡ true
    → str_eq name "__proto__" ≡ false
    → is_empty name ≡ false
    → is_empty value ≡ false
    → to_v2_headers (entry name value ∷ []) true ≡ (name, one value) ∷ []
unfolding to_v2_headers
to_v2_headers-inherited name value i p n v =
    let h = entry name value in
    let b : is_blank h ≡ false = rw (n, v) refl in
    let has : has_property {V = HeaderValue} name [] ≡ true = unfold has_property lookup in i in
    add_header_eq true h [] b ∙ rw has (assign_first name (one value) p)
