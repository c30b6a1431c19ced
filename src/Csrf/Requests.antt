-- ===== src/Csrf/Requests.antt =====
-- Requests from the first attempt to the last: how often one is sent, and what the session keeps.
use x_ui_glass.Shared.{
  ℕ, zero, suc, ◌≤◌, ◌≡◌, ◌≢◌, refl, ◌∙◌, String, true, not, ◌&&◌, Option, none, some, List, [],
  ◌∷◌, length, arith, Bool-cases, inl, inr, maybe,
}
use x_ui_glass.Csrf.{
  is_safe, Session, Config, Reply, accepted, refused, Outcome, resolved, rejected, open_ended,
  sent_again, Page, on_request, on_reply, ensure_csrf_token, has_status, decode_body,
}

pub data Settled : Type 0 where
  fulfilled failed stays_open unfinished : Settled

module _ {N : Type 0} (page : Page N) where
  -- What is left of a request: the session, what became of it, the requests that were sent and the
  -- replies that came.
  pub record Done : Type 0 where
    pub session : Session
    pub settled : Settled
    pub sent : List (Config N)
    pub heard : List Reply

  abbrev pub logged : Config N → Reply → Done → Done
  logged cfg r d = record d { sent = cfg ∷ d.sent; heard = r ∷ d.heard }

  abbrev pub ended : Settled → Session → Done
  ended how s = record { session = s; settled = how; sent = []; heard = [] }

  -- What follows on the outcome of an attempt.
  abbrev pub follow : (Config N → Done) → Session → Outcome N → Done
  follow again s resolved = ended fulfilled s
  follow again s rejected = ended failed s
  follow again s open_ended = ended stays_open s
  follow again s (sent_again cfg) = again cfg

  -- A request with the server's answers to its attempts; `unfinished` means that the fuel ran out.
  unfoldable pub exchange : ℕ → (ℕ → Reply) → Session → Config N → Done
  unfolding on_request on_reply
  exchange zero replies s cfg = ended unfinished s
  exchange (suc f) replies s cfg =
      let (s1, out_going) = on_request page s cfg in
      let (s2, outcome) = on_reply page s1 out_going (replies 0) in
      logged out_going (replies 0) (follow (exchange f (λ i. replies (suc i)) s2) s2 outcome)

  -- It came to an end, with so many requests at most.
  abbrev pub Ends : ℕ → Done → Type 0
  Ends n d = (d.settled ≢ unfinished) × (length d.sent ≤ n)

  -- A request that is sent again counts as such.
  abbrev IsMarked : Outcome N → Type 0
  IsMarked resolved = Unit
  IsMarked rejected = Unit
  IsMarked open_ended = Unit
  IsMarked (sent_again cfg) = cfg.csrf_retried ≡ true

  abbrev pub IsLast : Outcome N → Type 0
  IsLast resolved = Unit
  IsLast rejected = Unit
  IsLast open_ended = Unit
  IsLast (sent_again cfg) = ⊥

  retried-IsMarked :
      (cfg : Config N) (s : Session) (token : Option String)
      → IsMarked (
          maybe token rejected (λ t. sent_again (record cfg {
            token = some t;
            csrf_retried = true;
            body = decode_body page cfg.content_type cfg.body;
          })))
  retried-IsMarked cfg s none = tt
  retried-IsMarked cfg s (some t) = refl

  on_reply-IsMarked :
      (s : Session) (cfg : Config N) (r : Reply) → IsMarked (on_reply page s cfg r).1
  unfolding on_reply
  on_reply-IsMarked s cfg accepted = tt
  on_reply-IsMarked s cfg (refused status) = elim (Bool-cases (has_status status 401)) [
    | inl e ↦ rw e tt
    | inr e ↦ elim (Bool-cases (has_status status 403 && not cfg.csrf_retried)) [
      | inl e' ↦
          rw (e, e')
            (retried-IsMarked cfg s (ensure_csrf_token page (record s { csrf_token = none })).1)
      | inr e' ↦ rw (e, e') tt
    ]
  ]

  on_reply-IsLast :
      (s : Session) (cfg : Config N) (r : Reply)
      → cfg.csrf_retried ≡ true
      → IsLast (on_reply page s cfg r).1
  unfolding on_reply
  on_reply-IsLast s cfg accepted h = tt
  on_reply-IsLast s cfg (refused status) h = elim (Bool-cases (has_status status 401)) [
    | inl e ↦ rw e tt
    | inr e ↦ elim (Bool-cases (has_status status 403)) [
      | inl e' ↦ rw (e, e', h) tt
      | inr e' ↦ rw (e, e') tt
    ]
  ]

  pub on_request_retried :
      (s : Session) (cfg : Config N) → (on_request page s cfg).1.csrf_retried ≡ cfg.csrf_retried
  unfolding on_request
  on_request_retried s cfg = elim (Bool-cases (is_safe cfg.method)) [
    | inl e ↦ rw e refl
    | inr e ↦ rw e refl
  ]

  pub follow_last :
      (again : Config N → Done) (s : Session) (o : Outcome N) → IsLast o → Ends 0 (follow again s o)
  follow_last again s resolved h = ground arith
  follow_last again s rejected h = ground arith
  follow_last again s open_ended h = ground arith
  follow_last again s (sent_again cfg) h = absurd h

  follow_marked :
      (again : Config N → Done) (s : Session) (o : Outcome N)
      → ((cfg : Config N) → cfg.csrf_retried ≡ true → Ends 1 (again cfg))
      → IsMarked o
      → Ends 1 (follow again s o)
  follow_marked again s resolved k h = ground arith
  follow_marked again s rejected k h = ground arith
  follow_marked again s open_ended k h = ground arith
  follow_marked again s (sent_again cfg) k h = k cfg h

  pub exchange_last :
      (f : ℕ) (replies : ℕ → Reply) (s : Session) (cfg : Config N)
      → cfg.csrf_retried ≡ true
      → Ends 1 (exchange (suc f) replies s cfg)
  unfolding exchange
  exchange_last f replies s cfg h =
      let (s1, out) = on_request page s cfg in
      ground (
        arith,
        follow_last (exchange f (λ i. replies (suc i)) (on_reply page s1 out (replies 0)).0)
            (on_reply page s1 out (replies 0)).0 (on_reply page s1 out (replies 0)).1
            (on_reply-IsLast s1 out (replies 0) (on_request_retried s cfg ∙ h)),
      )

  -- Whatever the server answers, a request comes to an end after two attempts at most, and fuel for
  -- two is enough.
  pub exchange_ends :
      (f : ℕ) (replies : ℕ → Reply) (s : Session) (cfg : Config N)
      → 2 ≤ f
      → (exchange f replies s cfg).settled ≢ unfinished
        × (length (exchange f replies s cfg).sent ≤ 2)
  unfolding exchange
  exchange_ends zero replies s cfg h = absurd (omega arith)
  exchange_ends (suc zero) replies s cfg h = absurd (omega arith)
  exchange_ends (suc (suc f)) replies s cfg h =
      let (s1, out) = on_request page s cfg in
      let s2 = (on_reply page s1 out (replies 0)).0 in
      ground (
        arith,
        follow_marked (exchange (suc f) (λ i. replies (suc i)) s2) s2
            (on_reply page s1 out (replies 0)).1 (exchange_last f (λ i. replies (suc i)) s2)
            (on_reply-IsMarked s1 out (replies 0)),
      )
