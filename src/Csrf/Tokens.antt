-- ===== src/Csrf/Tokens.antt =====
-- When the page is left: how often, and after which replies.
use x_ui_glass.Shared.{
  if_intro, any, Bool, true, false, ◌||◌, ◌==◌, ◌++◌, ap, ◌∙◌, some, ℕ, zero, suc, ◌≡◌, refl, not,
  ◌&&◌, none, List, [], ◌∷◌, if◌then◌else◌, arith, Bool-cases, Option-cases, inl, inr,
}
use x_ui_glass.Platform.{nonempty}
use x_ui_glass.Csrf.{
  expire, Session, Config, Reply, accepted, refused, Outcome, resolved, rejected, open_ended,
  sent_again, Page, on_request, on_reply, ensure_csrf_token, has_status, setup_axios,
  read_meta_token, is_safe,
}
use x_ui_glass.Csrf.Requests.{exchange, Done, follow}

-- The page is left once, when the session is found to be over.
record LeftOnce (s : Session) : Type 0 where
  left : s.redirects ≡ (if s.session_expired then 1 else 0)

-- A reply of an error with the status 401.
unfoldable pub is_over : Reply → Bool
is_over accepted = false
is_over (refused none) = false
is_over (refused (some n)) = n == 401

module _ {N : Type 0} (page : Page N) where
  ensure-LeftOnce : (s : Session) → LeftOnce s → LeftOnce (ensure_csrf_token page s).0
  unfolding ensure_csrf_token
  ensure-LeftOnce s h = elim (Option-cases (nonempty s.csrf_token)) [
    | inr (t, e) ↦ rw e h
    | inl e ↦ elim (Option-cases (read_meta_token page)) [
      | inr (m, e') ↦ rw (e, e') (record { left = h.left })
      | inl e' ↦ rw (e, e') (record { left = h.left })
    ]
  ]

  on_request-LeftOnce :
      (s : Session) (cfg : Config N) → LeftOnce s → LeftOnce (on_request page s cfg).0
  unfolding on_request
  on_request-LeftOnce s cfg h = elim (Bool-cases (is_safe cfg.method)) [
    | inl e ↦ rw e h
    | inr e ↦ rw e (ensure-LeftOnce s h)
  ]

  expire-LeftOnce : (s : Session) → LeftOnce s → LeftOnce (expire page s)
  expire-LeftOnce s h =
      if_intro LeftOnce s.session_expired (λ e. h) (λ e. record { left = ground (arith, h.left) })

  follow_session {ℓ} :
      (P : Session → Type ℓ) (again : Config N → Done page) (s : Session) (o : Outcome N)
      → P s
      → ((cfg : Config N) → P (again cfg).session)
      → P (follow page again s o).session
  follow_session P again s resolved h k = h
  follow_session P again s rejected h k = h
  follow_session P again s open_ended h k = h
  follow_session P again s (sent_again cfg) h k = k cfg

  on_reply-LeftOnce :
      (s : Session) (cfg : Config N) (r : Reply) → LeftOnce s → LeftOnce (on_reply page s cfg r).0
  unfolding on_reply
  on_reply-LeftOnce s cfg accepted h = h
  on_reply-LeftOnce s cfg (refused status) h = elim (Bool-cases (has_status status 401)) [
    | inl e ↦ rw e (expire-LeftOnce s h)
    | inr e ↦ elim (Bool-cases (has_status status 403 && not cfg.csrf_retried)) [
      | inl e' ↦
          rw (e, e') (ensure-LeftOnce (record s { csrf_token = none }) (record { left = h.left }))
      | inr e' ↦ rw (e, e') h
    ]
  ]

  exchange-LeftOnce :
      (f : ℕ) (replies : ℕ → Reply) (s : Session) (cfg : Config N)
      → LeftOnce s
      → LeftOnce (exchange page f replies s cfg).session
  unfolding exchange
  exchange-LeftOnce zero replies s cfg h = h
  exchange-LeftOnce (suc f) replies s cfg h =
      let (s1, out) = on_request page s cfg in
      let s2 = (on_reply page s1 out (replies 0)).0 in
      let h2 = on_reply-LeftOnce s1 out (replies 0) (on_request-LeftOnce s cfg h) in
      follow_session LeftOnce (exchange page f (λ i. replies (suc i)) s2) s2
        (on_reply page s1 out (replies 0)).1 h2
        (λ again. exchange-LeftOnce f (λ i. replies (suc i)) s2 again h2)

  -- The requests of a session, one after the other, each with the server's answers.
  unfoldable pub session_after : ℕ → List (Config N × (ℕ → Reply)) → Session → Session
  session_after f [] s = s
  session_after f ((cfg, replies) ∷ rs) s =
      session_after f rs (exchange page f replies s cfg).session

  session_after-LeftOnce :
      (f : ℕ) (rs : List (Config N × (ℕ → Reply))) (s : Session)
      → LeftOnce s
      → LeftOnce (session_after f rs s)
  unfolding session_after
  session_after-LeftOnce f [] s h = h
  session_after-LeftOnce f ((cfg, replies) ∷ rs) s h =
      session_after-LeftOnce f rs (exchange page f replies s cfg).session
        (exchange-LeftOnce f replies s cfg h)

  -- What the server answered in these requests.
  unfoldable pub heard_in : ℕ → List (Config N × (ℕ → Reply)) → Session → List Reply
  heard_in f [] s = []
  heard_in f ((cfg, replies) ∷ rs) s =
      let d = exchange page f replies s cfg in d.heard ++ heard_in f rs d.session

  ensure_over : (s : Session) → (ensure_csrf_token page s).0.session_expired ≡ s.session_expired
  unfolding ensure_csrf_token
  ensure_over s = elim (Option-cases (nonempty s.csrf_token)) [
    | inr (t, e) ↦ rw e refl
    | inl e ↦ elim (Option-cases (read_meta_token page)) [
      | inr (m, e') ↦ rw (e, e') refl
      | inl e' ↦ rw (e, e') refl
    ]
  ]

  on_request_over :
      (s : Session) (cfg : Config N) → (on_request page s cfg).0.session_expired ≡ s.session_expired
  unfolding on_request
  on_request_over s cfg = elim (Bool-cases (is_safe cfg.method)) [
    | inl e ↦ rw e refl
    | inr e ↦ rw e (ensure_over s)
  ]

  expire_over : (s : Session) → (expire page s).session_expired ≡ true
  expire_over s = elim (Bool-cases s.session_expired) [ inl e ↦ rw e refl | inr e ↦ rw e refl ]

  on_reply_over :
      (s : Session) (cfg : Config N) (r : Reply)
      → (on_reply page s cfg r).0.session_expired ≡ (s.session_expired || is_over r)
  unfolding on_reply is_over
  on_reply_over s cfg accepted = ground arith
  on_reply_over s cfg (refused none) = ground arith
  on_reply_over s cfg (refused (some n)) = elim (Bool-cases (n == 401)) [
    | inl e ↦ rw e (expire_over s ∙ ground arith)
    | inr e ↦ elim (Bool-cases (n == 403 && not cfg.csrf_retried)) [
      | inl e' ↦ rw (e, e') (ensure_over (record s { csrf_token = none }) ∙ ground arith)
      | inr e' ↦ rw (e, e') (ground arith)
    ]
  ]

  follow_over :
      (b : Bool) (r : Reply) (again : Config N → Done page) (s : Session) (o : Outcome N)
      → s.session_expired ≡ (b || is_over r)
      → ((cfg : Config N)
          → (again cfg).session.session_expired
            ≡ (s.session_expired || any is_over (again cfg).heard))
      → (follow page again s o).session.session_expired
        ≡ (b || any is_over (r ∷ (follow page again s o).heard))
  unfolding any
  follow_over b r again s resolved h k = h ∙ ground arith
  follow_over b r again s rejected h k = h ∙ ground arith
  follow_over b r again s open_ended h k = h ∙ ground arith
  follow_over b r again s (sent_again cfg) h k = k cfg ∙ rw h (ground arith)

  exchange_over :
      (f : ℕ) (replies : ℕ → Reply) (s : Session) (cfg : Config N)
      → (exchange page f replies s cfg).session.session_expired
        ≡ (s.session_expired || any is_over (exchange page f replies s cfg).heard)
  unfolding exchange any
  exchange_over zero replies s cfg = ground arith
  exchange_over (suc f) replies s cfg =
      let (s1, out) = on_request page s cfg in
      let s2 = (on_reply page s1 out (replies 0)).0 in
      follow_over s.session_expired (replies 0) (exchange page f (λ i. replies (suc i)) s2) s2
        (on_reply page s1 out (replies 0)).1
        (on_reply_over s1 out (replies 0)
          ∙ ap (λ b. b || is_over (replies 0)) (on_request_over s cfg))
        (exchange_over f (λ i. replies (suc i)) s2)

  any-append : (xs ys : List Reply) → any is_over (xs ++ ys) ≡ (any is_over xs || any is_over ys)
  unfolding any
  any-append [] ys = refl
  any-append (x ∷ xs) ys = rw (any-append xs ys) (ground arith)

  session_after_over :
      (f : ℕ) (rs : List (Config N × (ℕ → Reply))) (s : Session)
      → (session_after f rs s).session_expired
        ≡ (s.session_expired || any is_over (heard_in f rs s))
  unfolding session_after heard_in any
  session_after_over f [] s = ground arith
  session_after_over f ((cfg, replies) ∷ rs) s =
      let d = exchange page f replies s cfg in
      session_after_over f rs d.session
      ∙ rw (any-append d.heard (heard_in f rs d.session), exchange_over f replies s cfg)
          (ground arith)

  -- However many requests are made, one after the other, and whatever the server answers, the page
  -- is left once if a reply had the status 401, and never otherwise.
  pub redirected_once :
      (f : ℕ) (rs : List (Config N × (ℕ → Reply)))
      → (session_after f rs (setup_axios page)).redirects
        ≡ (if any is_over (heard_in f rs (setup_axios page)) then 1 else 0)
  unfolding setup_axios
  redirected_once f rs =
      (session_after-LeftOnce f rs (setup_axios page) (record { left = refl })).left
      ∙ ap (λ b. if b then 1 else 0) (session_after_over f rs (setup_axios page))
