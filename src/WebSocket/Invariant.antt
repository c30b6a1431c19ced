-- ===== src/WebSocket/Invariant.antt =====
-- The invariant of the client, and that the timers and the dialling keep it.
use x_ui_glass.Shared.{
  if_intro, ltb, ltb→lt, ℕ, String, ◌≡◌, refl, true, false, Option, none, some, List, [], ◌∷◌, ◌≤◌,
  arith, is_some, keep, not, ◌==◌, ap,
}
use x_ui_glass.WebSocket.{
  Client, Args, Effect, count_and_arm, jittered, is_live, ws_live, initial, cancel_reconnect, arm,
  schedule_reconnect, emit,
}

-- The pending timers are the one that the object knows of.
abbrev pub Armed : Option ℕ → List (ℕ × ℕ) → Type 0
Armed none timers = timers ≡ []
Armed (some t) timers = (d : ℕ) × (timers ≡ (t, d) ∷ [])

others : (t d : ℕ) → keep (λ (p : ℕ × ℕ). not (p.0 == t)) ((t, d) ∷ []) ≡ []
unfolding keep
others t d = ground arith

module _ {N : Type 0} where
  pub record Inv (w : Client N) : Type 0 where
    pub one_timer : Armed w.reconnect_timer w.timers
    pub stopped : w.should_reconnect ≡ false → w.reconnect_timer ≡ none
    pub attempts_capped : w.reconnect_attempts ≤ w.max_reconnect_attempts
    pub connected : w.is_connected ≡ true → is_some w.ws ≡ true
    pub waiting : is_some w.reconnect_timer ≡ true → ws_live w ≡ false
    pub single : (s : ℕ) → is_live (w.ready s) ≡ true → w.ws ≡ some s
    pub fresh : (s : ℕ) → w.sockets ≤ s → is_live (w.ready s) ≡ false

  pub initial-Inv : (base_path : String) → Inv (initial {N = N} base_path)
  unfolding initial
  initial-Inv b = record {
    one_timer = refl;
    stopped = λ h. refl;
    attempts_capped = ground arith;
    connected = λ h. cc;
    waiting = λ h. cc;
    single = λ s h. cc;
    fresh = λ s h. refl;
  }

  unfoldable pub idle : Client N → Client N
  idle w = record w { timers = []; reconnect_timer = none }

  pub idle-Inv : (w : Client N) → Inv w → Inv (idle w)
  unfolding idle ws_live
  idle-Inv w h = record {
    one_timer = refl;
    stopped = λ _. refl;
    attempts_capped = h.attempts_capped;
    connected = h.connected;
    waiting = λ k. cc;
    single = h.single;
    fresh = h.fresh;
  }

  -- What cancelling leaves: no timer, and all else as it was.
  pub cancel_reconnect_lem :
      (w : Client N) → Armed w.reconnect_timer w.timers → cancel_reconnect w ≡ idle w
  unfolding cancel_reconnect keep idle
  cancel_reconnect_lem w h = ground arith

  pub arm-Inv :
      (base r : ℕ) (w : Client N)
      → Inv w
      → w.timers ≡ []
      → w.should_reconnect ≡ true
      → ws_live w ≡ false
      → Inv (arm base r w)
  unfolding arm ws_live
  arm-Inv base r w h e l s = record {
    one_timer = (jittered base r, ap (λ ts. (w.next_timer, jittered base r) ∷ ts) e);
    stopped = λ k. cc;
    attempts_capped = h.attempts_capped;
    connected = h.connected;
    waiting = λ _. s;
    single = h.single;
    fresh = h.fresh;
  }

  -- Listeners and log are none of the invariant's concern.
  pub frame-Inv :
      (m : List (String × List ℕ)) (l : List (Effect N)) (w : Client N)
      → Inv w
      → Inv (record w { listeners = m; log = l })
  unfolding ws_live
  frame-Inv m l w h = record {
    one_timer = h.one_timer;
    stopped = h.stopped;
    attempts_capped = h.attempts_capped;
    connected = h.connected;
    waiting = h.waiting;
    single = h.single;
    fresh = h.fresh;
  }

  pub emit-Inv : (event : String) (args : Args N) (w : Client N) → Inv w → Inv (emit event args w)
  unfolding emit
  emit-Inv event args w h = frame-Inv w.listeners _ w h

  pub attempts-Inv :
      (n : ℕ) (w : Client N)
      → n ≤ w.max_reconnect_attempts
      → Inv w
      → Inv (record w { reconnect_attempts = n })
  unfolding ws_live
  attempts-Inv n w k h = record {
    one_timer = h.one_timer;
    stopped = h.stopped;
    attempts_capped = k;
    connected = h.connected;
    waiting = h.waiting;
    single = h.single;
    fresh = h.fresh;
  }

  pub count_and_arm-Inv :
      (r : ℕ) (w : Client N)
      → Inv w
      → w.timers ≡ []
      → w.should_reconnect ≡ true
      → ws_live w ≡ false
      → Inv (count_and_arm r w)
  unfolding count_and_arm ws_live
  count_and_arm-Inv r w h e s dead =
      if_intro Inv (ltb w.reconnect_attempts w.max_reconnect_attempts)
        (λ k. arm-Inv _ r _ (attempts-Inv _ w (omega (arith, ltb→lt _ _ k)) h) e s dead)
        (λ _. arm-Inv _ r w h e s dead)

  pub schedule_reconnect-Inv :
      (r : ℕ) (w : Client N) → Inv w → ws_live w ≡ false → Inv (schedule_reconnect r w)
  unfolding idle ws_live schedule_reconnect
  schedule_reconnect-Inv r w h dead =
      if_intro Inv (not w.should_reconnect) (λ _. h)
        (λ s.
          rw (cancel_reconnect_lem w h.one_timer)
            (count_and_arm-Inv r (idle w) (idle-Inv w h) refl (ground arith) dead))
