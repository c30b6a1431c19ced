-- ===== src/PanelVersion/Order.antt =====
-- The order of versions that offers follow.
use x_ui_glass.Shared.{
  String, ◌≡◌, refl, sym, ◌∙◌, Bool, true, false, some, ◌⊎◌, inl, inr, is_empty, if◌then◌else◌,
  Bool-cases,
}
use x_ui_glass.PanelVersion.{is_ahead, is_panel_update_available, parse_version_parts}

-- What `>` is on numbers that are no NaN.
pub record IsOrder {D : Type 0} (exceeds : D → D → Bool) : Type 0 where
  pub irreflexive : (a : D) → exceeds a a ≡ false
  pub transitive : (a b c : D) → exceeds a b ≡ true → exceeds b c ≡ true → exceeds a c ≡ true
  pub connected : (a b : D) → exceeds a b ≡ false → exceeds b a ≡ false → a ≡ b

-- The first place decides, or it is equal and the rest decides.
abbrev Lex : {A B : Type 0} → (A → A → Type 0) → (B → B → Type 0) → A × B → A × B → Type 0
Lex R S p q = R p.0 q.0 ⊎ ((p.0 ≡ q.0) × S p.1 q.1)

Lex-transitive :
    {A B : Type 0} (R : A → A → Type 0) (S : B → B → Type 0)
    → ((a b c : A) → R a b → R b c → R a c)
    → ((a b c : B) → S a b → S b c → S a c)
    → (p q r : A × B) → Lex R S p q
    → Lex R S q r
    → Lex R S p r
Lex-transitive R S tr ts p q r (inl h) (inl k) = inl (tr p.0 q.0 r.0 h k)
Lex-transitive R S tr ts p q r (inl h) (inr (e, _)) = inl (rw (sym e) h)
Lex-transitive R S tr ts p q r (inr (e, _)) (inl k) = inl (rw e k)
Lex-transitive R S tr ts p q r (inr (e, h)) (inr (e', k)) = inr (e ∙ e', ts p.1 q.1 r.1 h k)

module _ {D : Type 0} (number : String → D) (exceeds : D → D → Bool) (order : IsOrder exceeds) where
  abbrev Exceeds : D → D → Type 0
  Exceeds a b = exceeds a b ≡ true

  abbrev Ahead : D × D × D → D × D × D → Type 0
  Ahead (a, b, c) (x, y, z) = Lex Exceeds (Lex Exceeds Exceeds) (a, (b, c)) (x, (y, z))

  Ahead-transitive : (p q r : D × D × D) → Ahead p q → Ahead q r → Ahead p r
  Ahead-transitive (a, b, c) (x, y, z) (u, v, w) =
      Lex-transitive Exceeds (Lex Exceeds Exceeds) order.transitive
        (Lex-transitive Exceeds Exceeds order.transitive order.transitive) (a, (b, c)) (x, (y, z))
        (u, (v, w))

  -- One round of the loop.
  abbrev round : D → D → Bool → Bool
  round a x rest = if exceeds a x then true else if exceeds x a then false else rest

  round-Lex :
      (a x : D) (rest : Bool) → round a x rest ≡ true → Exceeds a x ⊎ ((a ≡ x) × (rest ≡ true))
  round-Lex a x rest h = elim (Bool-cases (exceeds a x)) [
    | inl p ↦ inl p
    | inr p ↦ elim (Bool-cases (exceeds x a)) [
      | inl q ↦
          let left : round a x rest ≡ false = rw (p, q) refl in
          let clash : false ≡ true = sym left ∙ h in cc
      | inr q ↦
          let left : round a x rest ≡ rest = rw (p, q) refl in
          inr (order.connected a x p q, sym left ∙ h)
    ]
  ]

  Lex-round :
      (a x : D) (rest : Bool) → Exceeds a x ⊎ ((a ≡ x) × (rest ≡ true)) → round a x rest ≡ true
  Lex-round a x rest (inl p) = rw p refl
  Lex-round a x rest (inr (e, r)) =
      let up : exceeds a x ≡ false = rw (sym e) (order.irreflexive a) in
      let down : exceeds x a ≡ false = rw (sym e) (order.irreflexive a) in rw (up, down) r

  last-Exceeds : (c z : D) → (if exceeds c z then true else false) ≡ true → Exceeds c z
  last-Exceeds c z h = elim (Bool-cases (exceeds c z)) [
    | inl p ↦ p
    | inr p ↦
        let left : (if exceeds c z then true else false) ≡ false = rw p refl in
        let clash : false ≡ true = sym left ∙ h in cc
  ]

  is_ahead-Ahead : (p q : D × D × D) → is_ahead number exceeds p q ≡ true → Ahead p q
  unfolding is_ahead
  is_ahead-Ahead (a, b, c) (x, y, z) h = elim (round-Lex a x _ h) [
    | inl p ↦ inl p
    | inr (e, h') ↦ elim (round-Lex b y _ h') [
      | inl p ↦ inr (e, inl p)
      | inr (e', h'') ↦ inr (e, inr (e', last-Exceeds c z h''))
    ]
  ]

  Ahead-is_ahead : (p q : D × D × D) → Ahead p q → is_ahead number exceeds p q ≡ true
  unfolding is_ahead
  Ahead-is_ahead (a, b, c) (x, y, z) (inl p) = Lex-round a x _ (inl p)
  Ahead-is_ahead (a, b, c) (x, y, z) (inr (e, inl p)) =
      Lex-round a x _ (inr (e, Lex-round b y _ (inl p)))
  Ahead-is_ahead (a, b, c) (x, y, z) (inr (e, inr (e', p))) =
      Lex-round a x _ (inr (e, Lex-round b y _ (inr (e', rw p refl))))

  is_ahead-transitive :
      (p q r : D × D × D)
      → is_ahead number exceeds p q ≡ true
      → is_ahead number exceeds q r ≡ true
      → is_ahead number exceeds p r ≡ true
  is_ahead-transitive p q r h k =
      Ahead-is_ahead p r (Ahead-transitive p q r (is_ahead-Ahead p q h) (is_ahead-Ahead q r k))

  is_ahead-irreflexive : (p : D × D × D) → is_ahead number exceeds p p ≡ false
  unfolding is_ahead
  is_ahead-irreflexive (a, b, c) =
      rw (order.irreflexive a, order.irreflexive b, order.irreflexive c) refl

  abbrev Offers : String → String → Type 0
  Offers latest current = is_panel_update_available number exceeds latest current ≡ true

  -- An offer needs two texts, and for versions the first is ahead.
  offered :
      (l m : String) (p q : D × D × D)
      → parse_version_parts number exceeds l ≡ some p
      → parse_version_parts number exceeds m ≡ some q
      → Offers l m
      → ((is_empty l ≡ false) × (is_empty m ≡ false)) × (is_ahead number exceeds p q ≡ true)
  unfolding is_panel_update_available
  offered l m p q hl hm h = elim (Bool-cases (is_empty l)) [
    | inl e ↦
        let left : is_panel_update_available number exceeds l m ≡ false = rw e refl in
        let clash : false ≡ true = sym left ∙ h in cc
    | inr e ↦ elim (Bool-cases (is_empty m)) [
      | inl e' ↦
          let left : is_panel_update_available number exceeds l m ≡ false = rw (e, e') refl in
          let clash : false ≡ true = sym left ∙ h in cc
      | inr e' ↦
          let left : is_panel_update_available number exceeds l m ≡ is_ahead number exceeds p q =
            rw (e, e', hl, hm) refl in
          ((e, e'), sym left ∙ h)
    ]
  ]

  -- Where `>` is an order, and three texts are versions: if the first is offered to the second and
  -- the second to the third, then the first is offered to the third, and the third is not offered
  -- to the first.
  pub update_chain :
      (l m c : String) (p q r : D × D × D)
      → parse_version_parts number exceeds l ≡ some p
      → parse_version_parts number exceeds m ≡ some q
      → parse_version_parts number exceeds c ≡ some r
      → Offers l m
      → Offers m c
      → Offers l c × (is_panel_update_available number exceeds c l ≡ false)
  unfolding is_panel_update_available
  update_chain l m c p q r hl hm hc h k =
      let ((el, em), lm) = offered l m p q hl hm h in
      let ((_, ec), mc) = offered m c q r hm hc k in
      let lc = is_ahead-transitive p q r lm mc in
      (
        rw (el, ec, hl, hc) lc,
        elim (Bool-cases (is_ahead number exceeds r p)) [
          | inr cl ↦ rw (el, ec, hl, hc) cl
          | inl cl ↦
              let clash : false ≡ true =
                sym (is_ahead-irreflexive p) ∙ is_ahead-transitive p r p lc cl in
              cc
        ],
      )
