-- ===== src/Capabilities/Rules.antt =====
-- How the capabilities of an inbound depend on each other.
use x_ui_glass.Shared.{
  String, true, false, ◌≡◌, refl, sym, ap, ◌∙◌, Option, none, some, List, [], ◌∷◌, str_eq, eq_iff,
  or_else, includes, any, Any, ◌⊎◌, ◌↔◌, Option-cases, first_chars, all, arith, Bool-cases, inl,
  inr,
}
use x_ui_glass.Capabilities.{
  Slice, network_of, security_of, is_value, method_of, tls_eligible_protocols, tls_networks,
  reality_eligible_protocols, reality_networks, stream_protocols, can_enable_tls,
  can_enable_reality, can_enable_tls_flow, can_enable_stream, can_enable_vision_seed, vision_flow,
  is_ss_multi_user, is_ss2022, ss_blake3_chacha20,
}

-- What stands in a list stands in every list that has all of it.
includes-subset :
    (xs ys : List String) (s : String)
    → all (includes ys) xs ≡ true
    → includes xs s ≡ true
    → includes ys s ≡ true
unfolding includes all
includes-subset [] ys s a h = cc
includes-subset (x ∷ xs) ys s a h = elim (Bool-cases (str_eq x s)) [
  | inl e ↦ ap (includes ys) (sym ((eq_iff x s).0 e)) ∙ ground arith
  | inr e ↦ includes-subset xs ys s (ground arith) (ground arith)
]

-- REALITY is offered only where TLS and a stream are.
pub can_enable_reality-can_enable_tls :
    (values : Slice)
    → can_enable_reality values ≡ true
    → (can_enable_tls values ≡ true) × (can_enable_stream values.protocol ≡ true)
unfolding can_enable_reality can_enable_tls can_enable_stream
can_enable_reality-can_enable_tls values h =
    let p : includes reality_eligible_protocols values.protocol ≡ true = ground arith in
    let n : includes reality_networks (or_else (network_of values) "") ≡ true = ground arith in
    let q : includes tls_eligible_protocols values.protocol ≡ true =
      includes-subset reality_eligible_protocols tls_eligible_protocols values.protocol
        (unfold includes all in refl) p in
    let m : includes tls_networks (or_else (network_of values) "") ≡ true =
      includes-subset reality_networks tls_networks (or_else (network_of values) "")
        (unfold includes all in refl) n in
    let t : includes stream_protocols values.protocol ≡ true =
      includes-subset reality_eligible_protocols stream_protocols values.protocol
        (unfold includes all in refl) p in
    (ground arith, t)

is_value_iff : (o : Option String) (s : String) → is_value o s ≡ true → o ≡ some s
is_value_iff none s h = cc
is_value_iff (some t) s h = ap (λ x. some x) ((eq_iff t s).0 h)

is_value-some : (o : Option String) (s : String) → o ≡ some s → is_value o s ≡ true
is_value-some o s h = ap (λ p. is_value p s) h ∙ (eq_iff s s).1 refl

-- A client of the list has the flow.
any-Any :
    (s : String) (flows : List (Option String))
    → any (λ flow. is_value flow s) flows ≡ true
    → Any (λ flow. flow ≡ some s) flows
unfolding any
any-Any s [] h = cc
any-Any s (f ∷ fs) h = elim (Bool-cases (is_value f s)) [
  | inl e ↦ inl (is_value_iff f s e)
  | inr e ↦ inr (any-Any s fs (ground (arith, h, e)))
]

Any-any :
    (s : String) (flows : List (Option String))
    → Any (λ flow. flow ≡ some s) flows
    → any (λ flow. is_value flow s) flows ≡ true
unfolding any
Any-any s [] h = elim h [ ]
Any-any s (f ∷ fs) (inl e) = rw (is_value-some f s e) refl
Any-any s (f ∷ fs) (inr h) = ground (arith, Any-any s fs h)

-- Where the seed of the vision flow is offered.
pub record OffersVisionSeed (values : Slice) : Type 0 where
  pub protocol : values.protocol ≡ "vless"
  pub network : network_of values ≡ some "tcp"
  pub security : (security_of values ≡ some "tls") ⊎ (security_of values ≡ some "reality")
  pub client :
      (flows : List (Option String)) × (values.clients ≡ some flows)
      × Any (λ flow. flow ≡ some "xtls-rprx-vision") flows

flow_offered :
    (values : Slice)
    → can_enable_tls_flow values ≡ true
    → (values.protocol ≡ "vless")
      × (network_of values ≡ some "tcp")
      × ((security_of values ≡ some "tls") ⊎ (security_of values ≡ some "reality"))
unfolding can_enable_tls_flow
flow_offered values h = (
  (eq_iff values.protocol "vless").0 (ground arith),
  is_value_iff (network_of values) "tcp" (ground arith),
  elim (Bool-cases (is_value (security_of values) "tls")) [
    | inl e ↦ inl (is_value_iff (security_of values) "tls" e)
    | inr e ↦ inr (is_value_iff (security_of values) "reality" (ground arith))
  ],
)

vision_seed-Offers :
    (values : Slice) → can_enable_vision_seed values ≡ true → OffersVisionSeed values
unfolding can_enable_vision_seed
vision_seed-Offers values h =
    let flow : can_enable_tls_flow values ≡ true = ground arith in
    let (p, n, c) = flow_offered values flow in
    elim (Option-cases values.clients) [
      | inl e ↦
          let left : can_enable_vision_seed values ≡ false = rw (flow, e) refl in
          let clash : false ≡ true = sym left ∙ h in cc
      | inr (flows, e) ↦
          let left : can_enable_vision_seed values ≡ any (λ f. is_value f vision_flow) flows =
            rw (flow, e) refl in
          record {
            protocol = p;
            network = n;
            security = c;
            client = (flows, e, any-Any vision_flow flows (sym left ∙ h));
          }
    ]

Offers-tls_flow : (values : Slice) → OffersVisionSeed values → can_enable_tls_flow values ≡ true
unfolding can_enable_tls_flow
Offers-tls_flow values h =
    let n = is_value-some (network_of values) "tcp" h.network in
    let p : str_eq values.protocol "vless" ≡ true = (eq_iff values.protocol "vless").1 h.protocol in
    elim h.security [
      | inl e ↦ rw (is_value-some (security_of values) "tls" e, n, p) refl
      | inr e ↦ rw (is_value-some (security_of values) "reality" e, n, p) (ground arith)
    ]

-- The seed of the vision flow is offered to an inbound exactly if it is VLESS over TCP, its security
-- is TLS or REALITY, and one of its clients has the vision flow.
pub can_enable_vision_seed_iff :
    (values : Slice) → (can_enable_vision_seed values ≡ true) ↔ OffersVisionSeed values
unfolding can_enable_vision_seed
can_enable_vision_seed_iff values = (
  vision_seed-Offers values,
  λ h.
      let (flows, e, some_client) = h.client in
      rw (Offers-tls_flow values h, e) (Any-any vision_flow flows some_client),
)

-- A Shadowsocks inbound for a single user has a method of the 2022 family.
pub is_ss_multi_user-is_ss2022 :
    (values : Slice) → is_ss_multi_user values ≡ false → is_ss2022 values ≡ true
unfolding is_ss_multi_user is_ss2022
is_ss_multi_user-is_ss2022 values h =
    let e : method_of values ≡ ss_blake3_chacha20 =
      (eq_iff (method_of values) ss_blake3_chacha20).0 (ground arith) in
    ap (λ m. str_eq (first_chars 4 m) "2022") e ∙ unfold first_chars in refl
