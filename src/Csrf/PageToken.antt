-- ===== src/Csrf/PageToken.antt =====
-- The token of the page, on a request and on its second attempt.
use x_ui_glass.Shared.{
  if_intro, ◌≤◌, length, Bool, true, ◌==◌, if◌then◌else◌, ℕ, zero, suc, ◌≡◌, refl, ap, ◌∙◌, String,
  false, not, ◌&&◌, Option, none, some, is_empty, arith, Bool-cases, inl, inr, All,
}
use x_ui_glass.Platform.{nonempty}
use x_ui_glass.Csrf.{
  expire, Session, Config, Reply, accepted, refused, Outcome, resolved, rejected, open_ended,
  sent_again, Page, on_request, on_reply, ensure_csrf_token, has_status, setup_axios,
  read_meta_token, is_safe, decode_body,
}
use x_ui_glass.Csrf.Requests.{
  exchange, Done, follow, IsLast, exchange_last, follow_last, on_request_retried,
}

nonempty_again : (o : Option String) (m : String) → nonempty o ≡ some m → nonempty (some m) ≡ some m
nonempty_again none m h = ground arith
nonempty_again (some t) m h = elim (Bool-cases (is_empty t)) [
  | inl e ↦ ground arith
  | inr e ↦ ground arith
]

-- A reply of an error with the status 403.
unfoldable pub is_refusal : Reply → Bool
is_refusal accepted = false
is_refusal (refused none) = false
is_refusal (refused (some n)) = n == 403

module _ {N : Type 0} (page : Page N) (m : String) (given : read_meta_token page ≡ some m) where
  record HasToken (n : ℕ) (s : Session) : Type 0 where
    token : s.csrf_token ≡ some m
    asked : s.fetches ≡ n

  token_again : nonempty (some m) ≡ some m
  unfolding read_meta_token
  token_again = nonempty_again page.meta_content m given

  ensure_kept : (s : Session) → s.csrf_token ≡ some m → ensure_csrf_token page s ≡ (s, some m)
  unfolding ensure_csrf_token
  ensure_kept s h = rw (ap nonempty h ∙ token_again) refl

  ensure_dropped :
      (s : Session)
      → ensure_csrf_token page (record s { csrf_token = none })
        ≡ (record s { csrf_token = some m }, some m)
  unfolding ensure_csrf_token
  ensure_dropped s = rw given refl

  -- What a request that may change something looks like when it goes out.
  request_token :
      (n : ℕ) (s : Session) (cfg : Config N)
      → is_safe cfg.method ≡ false
      → HasToken n s
      → HasToken n (on_request page s cfg).0
        × ((on_request page s cfg).1.token ≡ some m)
        × ((on_request page s cfg).1.method ≡ cfg.method)
  unfolding on_request
  request_token n s cfg e h = rw (e, ensure_kept s h.token) (h, refl, refl)

  -- A request that is sent again has the method that it had.
  abbrev SameMethod : String → Outcome N → Type 0
  SameMethod method (sent_again cfg) = cfg.method ≡ method
  SameMethod method resolved = Unit
  SameMethod method rejected = Unit
  SameMethod method open_ended = Unit

  expire_token : (n : ℕ) (s : Session) → HasToken n s → HasToken n (expire page s)
  expire_token n s h =
      if_intro (HasToken n) s.session_expired (λ e. h)
        (λ e. record { token = h.token; asked = h.asked })

  reply_token :
      (n : ℕ) (s : Session) (cfg : Config N) (r : Reply)
      → HasToken n s
      → HasToken n (on_reply page s cfg r).0 × SameMethod cfg.method (on_reply page s cfg r).1
  unfolding on_reply
  reply_token n s cfg accepted h = (h, tt)
  reply_token n s cfg (refused status) h = elim (Bool-cases (has_status status 401)) [
    | inl e ↦ rw e (expire_token n s h, tt)
    | inr e ↦ elim (Bool-cases (has_status status 403 && not cfg.csrf_retried)) [
      | inl e' ↦ rw (e, e', ensure_dropped s) (record { token = refl; asked = h.asked }, refl)
      | inr e' ↦ rw (e, e') (h, tt)
    ]
  ]

  abbrev Sent : ℕ → Done page → Type 0
  Sent n d = HasToken n d.session × All (λ (c : Config N). c.token ≡ some m) d.sent

  follow_token :
      (n : ℕ) (method : String) (again : Config N → Done page) (s : Session) (o : Outcome N)
      → HasToken n s
      → SameMethod method o
      → ((cfg : Config N) → cfg.method ≡ method → Sent n (again cfg))
      → Sent n (follow page again s o)
  follow_token n method again s resolved h e k = (h, tt)
  follow_token n method again s rejected h e k = (h, tt)
  follow_token n method again s open_ended h e k = (h, tt)
  follow_token n method again s (sent_again cfg) h e k = k cfg e

  exchange_token :
      (f n : ℕ) (replies : ℕ → Reply) (s : Session) (cfg : Config N)
      → is_safe cfg.method ≡ false
      → HasToken n s
      → Sent n (exchange page f replies s cfg)
  unfolding exchange
  exchange_token zero n replies s cfg e h = (h, tt)
  exchange_token (suc f) n replies s cfg e h =
      let (s1, out) = on_request page s cfg in
      let (h1, carries, method) = request_token n s cfg e h in
      let (h2, same) = reply_token n s1 out (replies 0) h1 in
      let s2 = (on_reply page s1 out (replies 0)).0 in
      let rest =
        follow_token n out.method (exchange page f (λ i. replies (suc i)) s2) s2
          (on_reply page s1 out (replies 0)).1 h2 same
          (λ again eq.
            exchange_token f n (λ i. replies (suc i)) s2 again
              (ap (λ x. is_safe x) (eq ∙ method) ∙ e) h2) in
      (rest.0, (carries, rest.1))

  refused_again :
      (s : Session) (cfg : Config N) (r : Reply)
      → is_refusal r ≡ true
      → cfg.csrf_retried ≡ false
      → (c : Config N) × ((on_reply page s cfg r).1 ≡ sent_again c) × (c.csrf_retried ≡ true)
  unfolding on_reply is_refusal
  refused_again s cfg accepted h fresh = cc
  refused_again s cfg (refused none) h fresh = cc
  refused_again s cfg (refused (some n)) h fresh =
      let other : (n == 401) ≡ false = ground (arith, h) in
      let c : Config N = record cfg {
        token = some m;
        csrf_retried = true;
        body = decode_body page cfg.content_type cfg.body;
      } in
      (c, rw (other, h, fresh, ensure_dropped s) refl, refl)

  not_refused-IsLast :
      (s : Session) (cfg : Config N) (r : Reply)
      → is_refusal r ≡ false
      → IsLast page (on_reply page s cfg r).1
  unfolding on_reply is_refusal
  not_refused-IsLast s cfg accepted h = tt
  not_refused-IsLast s cfg (refused none) h = tt
  not_refused-IsLast s cfg (refused (some n)) h = elim (Bool-cases (n == 401)) [
    | inl e ↦ rw e tt
    | inr e ↦ rw (e, h) tt
  ]

  exchange_sends :
      (f : ℕ) (replies : ℕ → Reply) (s : Session) (cfg : Config N)
      → 1 ≤ length (exchange page (suc f) replies s cfg).sent
  unfolding exchange
  exchange_sends f replies s cfg = ground arith

  length-sent :
      (f : ℕ) (replies : ℕ → Reply) (s : Session) (cfg : Config N)
      → cfg.csrf_retried ≡ false
      → length (exchange page (suc (suc f)) replies s cfg).sent
        ≡ (if is_refusal (replies 0) then 2 else 1)
  unfolding exchange
  length-sent f replies s cfg fresh =
      let (s1, out) = on_request page s cfg in
      let s2 = (on_reply page s1 out (replies 0)).0 in
      let o = (on_reply page s1 out (replies 0)).1 in
      let again : Config N → Done page = exchange page (suc f) (λ i. replies (suc i)) s2 in
      elim (Bool-cases (is_refusal (replies 0))) [
        | inl e ↦
            let (c, eq, marked) =
              refused_again s1 out (replies 0) e (on_request_retried page s cfg ∙ fresh) in
            let last = (exchange_last page f (λ i. replies (suc i)) s2 c marked).1 in
            let sends = exchange_sends f (λ i. replies (suc i)) s2 c in
            let one : length (follow page again s2 o).sent ≡ 1 =
              ap (λ x. length (follow page again s2 x).sent) eq ∙ omega arith in
            ap suc one ∙ rw e refl
        | inr e ↦
            let last = (follow_last page again s2 o (not_refused-IsLast s1 out (replies 0) e)).1 in
            let none_sent : length (follow page again s2 o).sent ≡ 0 = omega arith in
            ap suc none_sent ∙ rw e refl
      ]

  -- Where the page has a token, a request that may change something and was not sent before goes
  -- out twice if the first reply has the status 403, and once otherwise; it carries the token of the
  -- page at each attempt, and the server is never asked for another.
  pub sent_token-page :
      (f : ℕ) (replies : ℕ → Reply) (cfg : Config N)
      → is_safe cfg.method ≡ false
      → cfg.csrf_retried ≡ false
      → (length (exchange page (suc (suc f)) replies (setup_axios page) cfg).sent
          ≡ (if is_refusal (replies 0) then 2 else 1))
        × All
            (λ (c : Config N). c.token ≡ some m)
            (exchange page (suc (suc f)) replies (setup_axios page) cfg).sent
        × ((exchange page (suc (suc f)) replies (setup_axios page) cfg).session.fetches ≡ 0)
  unfolding setup_axios
  sent_token-page f replies cfg e fresh =
      let d =
        exchange_token (suc (suc f)) 0 replies (setup_axios page) cfg e
          (record { token = given; asked = refl }) in
      (length-sent f replies (setup_axios page) cfg fresh, d.1, d.0.asked)
