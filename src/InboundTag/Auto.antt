-- ===== src/InboundTag/Auto.antt =====
-- Which tags of an inbound are derived ones, and the transports that they name.
use text.Mathlib.TextLemmas.{cons-append, nil-append}
use text.Mathlib.TextEquality.{Char-path}
use x_ui_glass.Shared.{
  String, Bool, true, false, ◌||◌, ◌≡◌, refl, sym, ap, ◌∙◌, Option, none, some, ◌+++◌, ◌↔◌, ◌⊎◌,
  inl, inr, is_empty, str_eq, eq_iff, all_digits, after, arith, if◌then◌else◌, if_intro, Bool-cases,
  or_else, ◌==◌, ==_iff,
}
use Prim.Native.Char.{code}
use x_ui_glass.Json.{Fields}
use x_ui_glass.InboundTag.{
  Transports, transports, or_tcp, listed_transports, inbound_transports, InboundTagInput,
  compose_inbound_tag, is_auto_inbound_tag, numbered,
}

after-append : (p t : String) → after p (p +++ t) ≡ some t
unfolding after
after-append String.[] t = rw (nil-append t) refl
after-append (String.◌∷◌ c p) t = rw (cons-append c p t) (ground (arith, after-append p t))

if_true {ℓ} : {A : Type ℓ} (b : Bool) (x y : A) → b ≡ true → (if b then x else y) ≡ x
if_true b x y h = rw h refl

if_false {ℓ} : {A : Type ℓ} (b : Bool) (x y : A) → b ≡ false → (if b then x else y) ≡ y
if_false b x y h = rw h refl

after-eq-some : (p s t : String) → after p s ≡ some t → s ≡ p +++ t
unfolding after
after-eq-some String.[] s t h = ap (λ o. or_else o s) h ∙ sym (nil-append t)
after-eq-some (String.◌∷◌ d p) String.[] t h = cc
after-eq-some (String.◌∷◌ d p) (String.◌∷◌ c s) t h = elim (Bool-cases (code d == code c)) [
  | inl k ↦
      let same : c ≡ d = sym (Char-path d c ((==_iff (code d) (code c)).0 k)) in
      let rest : s ≡ p +++ t =
        after-eq-some p s t (sym (if_true (code d == code c) (after p s) none k) ∙ h) in
      ap (λ x. String.◌∷◌ x s) same ∙ ap (String.◌∷◌ d) rest ∙ sym (cons-append d p t)
  | inr k ↦ cc (sym (if_false (code d == code c) (after p s) none k) ∙ h)
]

or_tcp_some : (bits : Transports) → ((or_tcp bits).on_tcp || (or_tcp bits).on_udp) ≡ true
or_tcp_some bits = ground arith

abbrev pub IsNumber : String → Type 0
IsNumber s = (is_empty s ≡ false) × (all_digits s ≡ true)

numbered_iff :
    (o : Option String) → (numbered o ≡ true) ↔ ((s : String) × (o ≡ some s) × IsNumber s)
unfolding numbered
numbered_iff none = ((λ h. cc), (λ (s, e, _). cc))
numbered_iff (some t) = (
  (λ h. (t, refl, (ground arith, ground arith))),
  (λ (s, e, (p, q)).
      let same : t ≡ s = ap (λ o. or_else o t) e in
      rw (ap is_empty same ∙ p, ap all_digits same ∙ q) refl),
)

module _ {N : Type 0} where
  -- Every inbound has a transport, so that the suffix of its tag is never `any`.
  pub inbound_transports_some :
      (protocol : String) (stream settings : Option (Fields N))
      → (let bits = inbound_transports protocol stream settings in
          (bits.on_tcp || bits.on_udp) ≡ true)
  unfolding inbound_transports
  inbound_transports_some protocol stream settings =
      if_intro (λ (bits : Transports). (bits.on_tcp || bits.on_udp) ≡ true)
        (str_eq protocol "hysteria" || str_eq protocol "wireguard") {x = transports false true}
        {y = or_tcp (listed_transports protocol stream settings)} (λ _. refl)
        (λ _. or_tcp_some (listed_transports protocol stream settings))

  -- A tag counts as derived if and only if it is empty, is the derived tag, or is the derived tag
  -- with a dash and a number behind it.
  pub is_auto_inbound_tag_iff :
      (tag : String) (input : InboundTagInput N)
      → (is_auto_inbound_tag tag input ≡ true) ↔ (
          (tag ≡ "")
          ⊎ ((tag ≡ compose_inbound_tag input)
              ⊎ ((s : String) × (tag ≡ (compose_inbound_tag input +++ "-") +++ s) × IsNumber s)))
  unfolding is_auto_inbound_tag
  is_auto_inbound_tag_iff tag input =
      let base = compose_inbound_tag input in
      let cases = numbered_iff (after (base +++ "-") tag) in
      (
        (λ h. elim (Bool-cases (is_empty tag)) [
          | inl e ↦ inl ((eq_iff tag "").0 e)
          | inr e ↦ elim (Bool-cases (str_eq tag base)) [
            | inl k ↦ inr (inl ((eq_iff tag base).0 k))
            | inr k ↦
                let (s, p, q) = cases.0 (
                  sym (if_false (str_eq tag base) true _ k)
                  ∙ sym (if_false (is_empty tag) true _ e)
                  ∙ h) in
                inr (inr (s, after-eq-some (base +++ "-") tag s p, q))
          ]
        ]),
        (λ h.
            if_intro (λ b. b ≡ true) (is_empty tag) (λ _. refl)
              (λ e.
                if_intro (λ b. b ≡ true) (str_eq tag base) (λ _. refl)
                  (λ k. elim h [
                    | inl x ↦ cc (sym ((eq_iff tag "").1 x) ∙ e)
                    | inr (inl x) ↦ cc (sym ((eq_iff tag base).1 x) ∙ k)
                    | inr (inr (s, x, q)) ↦
                        cases.1 (s, ap (after (base +++ "-")) x ∙ after-append (base +++ "-") s, q)
                  ]))),
      )
