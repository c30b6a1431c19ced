-- ===== src/LinkParser/Schemes.antt =====
-- Which parser of frontend/src/lib/xray/outbound-link-parser.ts a link belongs to.
use mathlib.Core.Path.{subst}
use x_ui_glass.Shared.{
  ◌↔◌, String, true, false, ◌≡◌, refl, sym, ap, ◌∙◌, Option, none, some, if◌then◌else◌, arith,
  is_empty, is_some, str_eq, eq_iff, after, trim, Option-cases, inl, inr, ◌⊎◌, if_intro, maybe,
}
use x_ui_glass.Json.{Value}
use x_ui_glass.Platform.{Web, Url}
use x_ui_glass.LinkParser.{without_colon, parse_outbound_link, first_accepted}
use x_ui_glass.LinkParser.Accepted.{
  Scheme, vmess, vless, trojan, shadowsocks, hysteria2, wireguard, HasProtocol, parser, Named,
  Accepted, parser-Accepted, some_inj, try_first, try_next, try_cases,
}

-- The scheme that a text in front of `://` names.
unfoldable pub family : String → Option Scheme
family s =
    if str_eq s "vmess"
    then some vmess
    else if str_eq s "ss"
    then some shadowsocks
    else if str_eq s "vless"
    then some vless
    else if str_eq s "trojan"
    then some trojan
    else if str_eq s "hysteria2"
    then some hysteria2
    else if str_eq s "hy2"
    then some hysteria2
    else if str_eq s "wireguard"
    then some wireguard
    else if str_eq s "wg"
    then some wireguard
    else none

module _ {N : Type 0} (web : Web N) where
  -- The URL constructor refuses the empty text and reads a scheme off the front of a link.
  pub record SchemeLaws : Type 0 where
    pub empty : web.parse_url "" ≡ none
    pub vmess_url :
        (link : String) (u : Url)
        → is_some (after "vmess://" link) ≡ true
        → web.parse_url link ≡ some u
        → u.protocol ≡ "vmess:"
    pub ss_url :
        (link : String) (u : Url)
        → is_some (after "ss://" link) ≡ true
        → web.parse_url link ≡ some u
        → u.protocol ≡ "ss:"

  -- The scheme that a link names: by its start, or by the URL it is.
  unfoldable scheme_of : String → Option Scheme
  unfolding family
  scheme_of link =
      if is_some (after "vmess://" link)
      then some vmess
      else if is_some (after "ss://" link)
      then some shadowsocks
      else maybe (web.parse_url link) none (λ u. family (without_colon u.protocol))

  ss_not_vmess :
      (link : String)
      → is_some (after "ss://" link) ≡ true
      → is_some (after "vmess://" link) ≡ false
  unfolding after
  ss_not_vmess String.[] h = cc
  ss_not_vmess (String.◌∷◌ c s) h = ground arith

  vmess_clash :
      (link s : String)
      → SchemeLaws
      → Named web link s
      → is_some (after "vmess://" link) ≡ true
      → s ≡ "vmess"
  unfolding without_colon
  vmess_clash link s laws (u, e, k) p =
      sym ((eq_iff (without_colon u.protocol) s).0 k) ∙ ap without_colon (laws.vmess_url link u p e)

  ss_clash :
      (link s : String)
      → SchemeLaws
      → Named web link s
      → is_some (after "ss://" link) ≡ true
      → s ≡ "ss"
  unfolding without_colon
  ss_clash link s laws (u, e, k) p =
      sym ((eq_iff (without_colon u.protocol) s).0 k) ∙ ap without_colon (laws.ss_url link u p e)

  -- The scheme of a link whose URL has the protocol `s`.
  Named-scheme_of :
      (link s : String) (a : Scheme)
      → SchemeLaws
      → Named web link s
      → family s ≡ some a
      → str_eq s "vmess" ≡ false
      → str_eq s "ss" ≡ false
      → scheme_of link ≡ some a
  unfolding scheme_of
  Named-scheme_of link s a laws n f v w =
      let (u, e, k) = n in
      let same : without_colon u.protocol ≡ s = (eq_iff (without_colon u.protocol) s).0 k in
      if_intro (λ o. o ≡ some a) (is_some (after "vmess://" link))
        (λ p. ground (arith, vmess_clash link s laws n p, eq_iff s "vmess"))
        (λ _.
          if_intro (λ o. o ≡ some a) (is_some (after "ss://" link))
            (λ p. ground (arith, ss_clash link s laws n p, eq_iff s "ss")) (λ _. rw (e, same) f))

  Accepted-scheme_of :
      (a : Scheme) (link : String) → SchemeLaws → Accepted web a link → scheme_of link ≡ some a
  unfolding scheme_of family
  Accepted-scheme_of vmess link laws h = rw h refl
  Accepted-scheme_of shadowsocks link laws h = rw (ss_not_vmess link h, h) refl
  Accepted-scheme_of vless link laws h = Named-scheme_of link "vless" vless laws h refl refl refl
  Accepted-scheme_of trojan link laws h = Named-scheme_of link "trojan" trojan laws h refl refl refl
  Accepted-scheme_of hysteria2 link laws (inl h) =
      Named-scheme_of link "hysteria2" hysteria2 laws h refl refl refl
  Accepted-scheme_of hysteria2 link laws (inr h) =
      Named-scheme_of link "hy2" hysteria2 laws h refl refl refl
  Accepted-scheme_of wireguard link laws (inl h) =
      Named-scheme_of link "wireguard" wireguard laws h refl refl refl
  Accepted-scheme_of wireguard link laws (inr h) =
      Named-scheme_of link "wg" wireguard laws h refl refl refl

  -- Given the laws of the URL constructor, two parsers that accept one link are the same parser.
  pub parser-one :
      (a b : Scheme) (link : String) (v w : Value N)
      → SchemeLaws
      → parser web a link ≡ some v
      → parser web b link ≡ some w
      → a ≡ b
  parser-one a b link v w laws h k = some_inj (
      sym (Accepted-scheme_of a link laws (parser-Accepted web a link v h).0)
      ∙ Accepted-scheme_of b link laws (parser-Accepted web b link w k).0)

  parser_blank : (a : Scheme) (v : Value N) → SchemeLaws → ¬ (parser web a "" ≡ some v)
  unfolding after
  parser_blank a v laws h = blank a (parser-Accepted web a "" v h).0
    where
      blank : (a : Scheme) → Accepted web a "" → ⊥
      blank vmess k = cc
      blank shadowsocks k = cc
      blank vless (u, e, _) = cc (sym laws.empty ∙ e)
      blank trojan (u, e, _) = cc (sym laws.empty ∙ e)
      blank hysteria2 (inl (u, e, _)) = cc (sym laws.empty ∙ e)
      blank hysteria2 (inr (u, e, _)) = cc (sym laws.empty ∙ e)
      blank wireguard (inl (u, e, _)) = cc (sym laws.empty ∙ e)
      blank wireguard (inr (u, e, _)) = cc (sym laws.empty ∙ e)

  -- Every parser but the one that accepts a link refuses it.
  parser_only :
      (a b : Scheme) (link : String) (v : Value N)
      → SchemeLaws
      → parser web a link ≡ some v
      → (parser web b link ≡ none) ⊎ (parser web b link ≡ some v)
  parser_only a b link v laws h = elim (Option-cases (parser web b link)) [
    | inl e ↦ inl e
    | inr (w, e) ↦
        inr (subst (λ c. parser web c link ≡ some v) (parser-one a b link v w laws h e) h)
  ]

  dispatched :
      (a : Scheme) (link : String) (v : Value N)
      → SchemeLaws
      → parser web a link ≡ some v
      → first_accepted web link ≡ some v
  unfolding first_accepted
  dispatched vmess link v laws h = try_first _ _ h
  dispatched vless link v laws h =
      try_next _ _ (parser_only vless vmess link v laws h) (try_first _ _ h)
  dispatched trojan link v laws h =
      try_next _ _ (parser_only trojan vmess link v laws h)
        (try_next _ _ (parser_only trojan vless link v laws h) (try_first _ _ h))
  dispatched shadowsocks link v laws h =
      let only = λ (b : Scheme). parser_only shadowsocks b link v laws h in
      try_next _ _ (only vmess)
        (try_next _ _ (only vless) (try_next _ _ (only trojan) (try_first _ _ h)))
  dispatched hysteria2 link v laws h =
      let only = λ (b : Scheme). parser_only hysteria2 b link v laws h in
      try_next _ _ (only vmess) (
        try_next _ _ (only vless)
          (try_next _ _ (only trojan) (try_next _ _ (only shadowsocks) (try_first _ _ h))))
  dispatched wireguard link v laws h =
      let only = λ (b : Scheme). parser_only wireguard b link v laws h in
      try_next _ _ (only vmess) (
        try_next _ _ (only vless) (
          try_next _ _ (only trojan)
            (try_next _ _ (only shadowsocks) (try_next _ _ (only hysteria2) h))))

  accepted_one :
      (link : String) (v : Value N)
      → first_accepted web link ≡ some v
      → (a : Scheme) × (parser web a link ≡ some v)
  unfolding first_accepted
  accepted_one link v h = elim (try_cases _ _ h) [
    | inl e ↦ (vmess, e)
    | inr h1 ↦ elim (try_cases _ _ h1) [
      | inl e ↦ (vless, e)
      | inr h2 ↦ elim (try_cases _ _ h2) [
        | inl e ↦ (trojan, e)
        | inr h3 ↦ elim (try_cases _ _ h3) [
          | inl e ↦ (shadowsocks, e)
          | inr h4 ↦ elim (try_cases _ _ h4) [ inl e ↦ (hysteria2, e) | inr e ↦ (wireguard, e) ]
        ]
      ]
    ]
  ]

  -- Given the laws of the URL constructor, a link gives an outbound if and only if one of the six
  -- parsers gives that outbound for the trimmed link: the order in which they are tried is
  -- of no effect.
  pub parse_outbound_link_iff :
      (link : String) (v : Value N)
      → SchemeLaws
      → (parse_outbound_link web link ≡ some v)
        ↔ ((a : Scheme) × (parser web a (trim link) ≡ some v))
  unfolding parse_outbound_link
  parse_outbound_link_iff link v laws = (
    (λ h.
        if_intro (λ o. o ≡ some v → (a : Scheme) × (parser web a (trim link) ≡ some v))
          (is_empty (trim link)) (λ _ e. cc) (λ _ e. accepted_one (trim link) v e) h),
    (λ (a, h).
        if_intro (λ o. o ≡ some v) (is_empty (trim link))
          (λ e. absurd (
            parser_blank a v laws
              (subst (λ t. parser web a t ≡ some v) ((eq_iff (trim link) "").0 e) h)))
          (λ _. dispatched a (trim link) v laws h)),
  )

  -- What a link gives is an outbound whose first field is the name of its parser's protocol.
  pub parse_outbound_link-HasProtocol :
      (link : String) (v : Value N)
      → parse_outbound_link web link ≡ some v
      → (a : Scheme) × (parser web a (trim link) ≡ some v) × HasProtocol a v
  unfolding parse_outbound_link
  parse_outbound_link-HasProtocol link v h =
      if_intro
        (λ o. o ≡ some v → (a : Scheme) × (parser web a (trim link) ≡ some v) × HasProtocol a v)
        (is_empty (trim link)) (λ _ e. cc)
        (λ _ e.
          let (a, k) = accepted_one (trim link) v e in
          (a, k, (parser-Accepted web a (trim link) v k).1))
        h
