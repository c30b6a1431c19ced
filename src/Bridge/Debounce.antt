-- ===== src/Bridge/Debounce.antt =====
-- The timer of the bridge: how many are pending, and what a burst of invalidations comes to.
use x_ui_glass.Shared.{
  ℕ, ◌+◌, ◌≤◌, ◌≡◌, refl, sym, ap, ◌∙◌, String, true, false, not, Option, none, some, List, [], ◌∷◌,
  ◌++◌, ◌==◌, if◌then◌else◌, keep, maybe, arith, if_intro, Bool-cases, inl, inr, Option-cases, ltb,
  str_eq,
}
use x_ui_glass.Json.{Value, arr, obj}
use x_ui_glass.Bridge.{
  Bridge, Kind, CacheCall, set_nodes, set_inbounds, handle, on_quiet, arm_quiet, clear_timer,
  on_invalidate, on_status, on_outbounds, on_nodes, on_inbounds, mark_local_invalidate,
  invalidate_queries, kind_of, set_data,
}

pub data Event (N : Type 0) : Type 0 where
  message : String → Value N → Event N
  local_change : ℕ → Event N
  timer_fires : ℕ → ℕ → Event N

-- At most one timer is pending, and the module knows it.
abbrev pub OnePending : Option ℕ → List (ℕ × Kind) → Type 0
OnePending none ts = ts ≡ []
OnePending (some t) ts = (k : Kind) × (ts ≡ (t, k) ∷ [])

unfoldable pub pending_kind : ℕ → List (ℕ × Kind) → Option Kind
pending_kind id [] = none
pending_kind id ((t, k) ∷ ts) = let rest = pending_kind id ts in if t == id then some k else rest

same : (t : ℕ) → (t == t) ≡ true
same t = ground arith

cleared :
    (o : Option ℕ) (ts : List (ℕ × Kind))
    → OnePending o ts
    → maybe o ts (λ t. keep (λ p. not (p.0 == t)) ts) ≡ []
unfolding keep
cleared none ts h = h
cleared (some t) ts (k, h) = rw (h, same t) refl

-- The timer that fires was the only one.
fired :
    (o : Option ℕ) (ts : List (ℕ × Kind)) (id : ℕ) (k : Kind)
    → OnePending o ts
    → pending_kind id ts ≡ some k
    → keep (λ p. not (p.0 == id)) ts ≡ []
unfolding keep pending_kind
fired none ts id k h e = rw h refl
fired (some t) ts id k (j, h) e = elim (Bool-cases (t == id)) [
  | inl p ↦ rw (h, p) refl
  | inr p ↦
      let gone : pending_kind id ts ≡ none = rw (h, p) refl in
      let clash : none ≡ some k = sym gone ∙ e in cc
]

module _ {N : Type 0} where
  abbrev pub IsDebounced : Bridge N → Type 0
  IsDebounced b = OnePending b.invalidate_timer b.timers

  unfoldable pub step : Event N → Bridge N → Bridge N
  unfolding handle on_quiet keep pending_kind
  step (message event payload) b = handle event payload b
  step (local_change now) b = mark_local_invalidate now b
  step (timer_fires id now) b =
      maybe (pending_kind id b.timers) b
        (λ k. on_quiet k now (record b { timers = keep (λ p. not (p.0 == id)) b.timers }))

  unfoldable pub run : List (Event N) → Bridge N → Bridge N
  unfolding step
  run [] b = b
  run (e ∷ es) b = run es (step e b)

  arm_quiet-IsDebounced :
      (k : Kind) (b : Bridge N) → IsDebounced b → IsDebounced (arm_quiet k (clear_timer b))
  unfolding arm_quiet
  arm_quiet-IsDebounced k b h =
      (k, ap (λ ts. (b.next_timer, k) ∷ ts) (cleared b.invalidate_timer b.timers h))

  on_invalidate-IsDebounced :
      (v : Value N) (b : Bridge N) → IsDebounced b → IsDebounced (on_invalidate v b)
  unfolding on_invalidate
  on_invalidate-IsDebounced v b h = elim (Option-cases (kind_of v)) [
    | inl e ↦ rw e h
    | inr (k, e) ↦ rw e (arm_quiet-IsDebounced k b h)
  ]

  set_data-IsDebounced :
      (f : Value N → CacheCall N) (v : Value N) (b : Bridge N)
      → IsDebounced b
      → IsDebounced (set_data f v b)
  set_data-IsDebounced f (arr vs) b h = h
  set_data-IsDebounced f _ b h = h

  on_status-IsDebounced : (v : Value N) (b : Bridge N) → IsDebounced b → IsDebounced (on_status v b)
  unfolding on_status
  on_status-IsDebounced (arr vs) b h = h
  on_status-IsDebounced (obj fs) b h = h
  on_status-IsDebounced _ b h = h

  on_quiet-IsDebounced :
      (k : Kind) (now : ℕ) (b : Bridge N) → b.timers ≡ [] → IsDebounced (on_quiet k now b)
  unfolding on_quiet
  on_quiet-IsDebounced k now b h =
      if_intro IsDebounced (ltb now (b.last_local + 1500)) (λ _. h) (λ _. h)

  handle-IsDebounced :
      (event : String) (v : Value N) (b : Bridge N) → IsDebounced b → IsDebounced (handle event v b)
  unfolding handle on_outbounds on_nodes on_inbounds
  handle-IsDebounced event v b h =
      if_intro IsDebounced (str_eq event "status") (λ _. on_status-IsDebounced v b h)
        (λ _.
          if_intro IsDebounced (str_eq event "invalidate") (λ _. on_invalidate-IsDebounced v b h)
            (λ _.
              if_intro IsDebounced (str_eq event "outbounds") (λ _. h)
                (λ _.
                  if_intro IsDebounced (str_eq event "nodes")
                    (λ _. set_data-IsDebounced set_nodes v b h)
                    (λ _.
                      if_intro IsDebounced (str_eq event "inbounds")
                        (λ _. set_data-IsDebounced set_inbounds v b h) (λ _. h)))))

  step-IsDebounced : (e : Event N) (b : Bridge N) → IsDebounced b → IsDebounced (step e b)
  unfolding step
  step-IsDebounced (message event v) b h = handle-IsDebounced event v b h
  step-IsDebounced (local_change now) b h = h
  step-IsDebounced (timer_fires id now) b h = elim (Option-cases (pending_kind id b.timers)) [
    | inl e ↦ rw e h
    | inr (k, e) ↦ rw e (
        on_quiet-IsDebounced k now (record b { timers = keep (λ p. not (p.0 == id)) b.timers })
          (fired b.invalidate_timer b.timers id k h e))
  ]

  -- Whatever messages arrive, whatever is changed locally and whichever timers fire, a bridge with
  -- at most one pending timer that the module knows has at most one, and the module knows it.
  pub run-IsDebounced :
      (es : List (Event N)) (b : Bridge N) → IsDebounced b → IsDebounced (run es b)
  unfolding run
  run-IsDebounced [] b h = h
  run-IsDebounced (e ∷ es) b h = run-IsDebounced es (step e b) (step-IsDebounced e b h)

  -- Invalidations that follow each other before the timer fires.
  unfoldable pub burst : List (Value N) → Bridge N → Bridge N
  burst [] b = b
  burst (p ∷ ps) b = burst ps (on_invalidate p b)

  on_invalidate-log : (v : Value N) (b : Bridge N) → (on_invalidate v b).log ≡ b.log
  unfolding on_invalidate arm_quiet
  on_invalidate-log v b = elim (Option-cases (kind_of v)) [
    | inl e ↦ rw e refl
    | inr (k, e) ↦ rw e refl
  ]

  on_invalidate-last_local :
      (v : Value N) (b : Bridge N) → (on_invalidate v b).last_local ≡ b.last_local
  unfolding on_invalidate arm_quiet
  on_invalidate-last_local v b = elim (Option-cases (kind_of v)) [
    | inl e ↦ rw e refl
    | inr (k, e) ↦ rw e refl
  ]

  burst-IsDebounced :
      (ps : List (Value N)) (b : Bridge N) → IsDebounced b → IsDebounced (burst ps b)
  unfolding burst
  burst-IsDebounced [] b h = h
  burst-IsDebounced (p ∷ ps) b h =
      burst-IsDebounced ps (on_invalidate p b) (on_invalidate-IsDebounced p b h)

  burst-log : (ps : List (Value N)) (b : Bridge N) → (burst ps b).log ≡ b.log
  unfolding burst
  burst-log [] b = refl
  burst-log (p ∷ ps) b = burst-log ps (on_invalidate p b) ∙ on_invalidate-log p b

  burst-last_local : (ps : List (Value N)) (b : Bridge N) → (burst ps b).last_local ≡ b.last_local
  unfolding burst
  burst-last_local [] b = refl
  burst-last_local (p ∷ ps) b =
      burst-last_local ps (on_invalidate p b) ∙ on_invalidate-last_local p b

  -- What the timer finds that an invalidation of a kind has set.
  armed_fires :
      (k : Kind) (now : ℕ) (b : Bridge N)
      → IsDebounced b
      → b.last_local + 1500 ≤ now
      → (step (timer_fires b.next_timer now) (arm_quiet k (clear_timer b))).log
        ≡ b.log ++ invalidate_queries k ∷ []
  unfolding step arm_quiet on_quiet pending_kind
  armed_fires k now b h late =
      let old : ltb now (b.last_local + 1500) ≡ false = ground (arith, late) in
      rw (same b.next_timer, old) refl

  -- After invalidations of which the last names a kind, on a bridge with at most one pending timer
  -- that the module knows, one timer is pending; where it fires 1500 ms or more after the last local
  -- change, the queries of the last kind are invalidated, and nothing else happens to the cache: the
  -- kinds named before are forgotten.
  pub burst_lem :
      (ps : List (Value N)) (p : Value N) (k : Kind) (now : ℕ) (b : Bridge N)
      → IsDebounced b
      → kind_of p ≡ some k
      → b.last_local + 1500 ≤ now
      → let c = on_invalidate p (burst ps b) in
        (t : ℕ) × (c.invalidate_timer ≡ some t)
        × (c.timers ≡ (t, k) ∷ [])
        × ((step (timer_fires t now) c).log ≡ b.log ++ invalidate_queries k ∷ [])
  unfolding on_invalidate arm_quiet
  burst_lem ps p k now b h e late =
      let a = burst ps b in
      let a-IsDebounced = burst-IsDebounced ps b h in
      rw e (
        a.next_timer,
        refl,
        ap (λ ts. (a.next_timer, k) ∷ ts) (cleared a.invalidate_timer a.timers a-IsDebounced),
        armed_fires k now a a-IsDebounced (rw (burst-last_local ps b) late)
            ∙ ap (λ l. l ++ invalidate_queries k ∷ []) (burst-log ps b),
      )
