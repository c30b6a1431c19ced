-- ===== src/WebSocket/Safety.antt =====
-- The live sockets and the pending timers of the client, after any steps.
use x_ui_glass.Shared.{
  Any, or_else, Bool-cases, if_intro, maybe_intro, ltb, sym, ◌+◌, ◌++◌, ℕ, String, ◌≡◌, refl, Bool,
  true, false, Option, none, some, [], ◌∷◌, ◌≤◌, arith, is_some, inl, inr, keep, not, ◌==◌, ap,
}
use x_ui_glass.Shared.Property.{lookup}
use Prim.Native.String.{len}
use mathlib.Core.Path.{subst}
use x_ui_glass.Json.{Value}
use x_ui_glass.WebSocket.{
  Client, Page, resume, is_open, transmit, no_args, envelope, deliver, same_as, max_payload_bytes,
  type_of_envelope, fields_payload, drop_socket, dial, failure, build_url, set_ready, Ready,
  connecting, ready_open, closing, closed, is_live, ws_live, connect, disconnect, on, off, send,
  on_open, on_error, on_close, on_message, on_timer, initial, open_socket, emit, close_socket,
}
use x_ui_glass.WebSocket.Events.{
  Event, connects, disconnects, subscribes, unsubscribes, sends, socket_opens, socket_fails,
  socket_leaves, socket_receives, socket_closes, timer_fires, Possible, becomes, step, Run, here,
  next,
}
use x_ui_glass.WebSocket.Invariant.{
  Armed, Inv, initial-Inv, idle, idle-Inv, cancel_reconnect_lem, frame-Inv, emit-Inv,
  schedule_reconnect-Inv,
}

module _ {N : Type 0} where
  no_live : (w : Client N) → Inv w → ws_live w ≡ false → (s : ℕ) → is_live (w.ready s) ≡ false
  unfolding ws_live
  no_live w h dead s = elim (Bool-cases (is_live (w.ready s))) [
    | inl k ↦ ground (arith, h.single s k)
    | inr k ↦ k
  ]

  dial-Inv :
      (url : String) (w : Client N)
      → Inv w
      → w.reconnect_timer ≡ none
      → ws_live w ≡ false
      → Inv (record w {
        ws = some w.sockets;
        sockets = w.sockets + 1;
        ready = set_ready w.sockets connecting w.ready;
        log = w.log ++ dial url ∷ [];
      })
  dial-Inv url w h e dead = record {
    one_timer = h.one_timer;
    stopped = h.stopped;
    attempts_capped = h.attempts_capped;
    connected = λ _. refl;
    waiting = λ k. ground arith;
    single = λ s k. ground (arith, no_live w h dead s);
    fresh = λ s k. ground (arith, h.fresh s);
  }

  open_socket-Inv :
      (page : Page) (throws : Bool) (r : ℕ) (w : Client N)
      → Inv w
      → w.reconnect_timer ≡ none
      → ws_live w ≡ false
      → Inv (open_socket page throws r w)
  unfolding open_socket
  open_socket-Inv page true r w h e dead =
      schedule_reconnect-Inv r (emit "error" failure w) (emit-Inv "error" failure w h)
        (unfold emit ws_live in dead)
  open_socket-Inv page false r w h e dead = dial-Inv (build_url page w.base_path) w h e dead

  allowed : Client N → Client N
  allowed w = record w { should_reconnect = true }

  allowed-Inv : (w : Client N) → Inv w → Inv (allowed w)
  unfolding allowed ws_live
  allowed-Inv w h = record {
    one_timer = h.one_timer;
    stopped = λ k. cc;
    attempts_capped = h.attempts_capped;
    connected = h.connected;
    waiting = h.waiting;
    single = h.single;
    fresh = h.fresh;
  }

  connect-Inv :
      (page : Page) (throws : Bool) (r : ℕ) (w : Client N) → Inv w → Inv (connect page throws r w)
  unfolding connect allowed
  connect-Inv page throws r w h =
      if_intro Inv (ws_live w) (λ _. h)
        (λ dead. rw (cancel_reconnect_lem (allowed w) h.one_timer) (
          open_socket-Inv page throws r (idle (allowed w)) (idle-Inv (allowed w) (allowed-Inv w h))
            (unfold idle in refl) (unfold idle ws_live in dead)))

  unready : Client N → Client N
  unready w = record w { timers = []; reconnect_timer = none; should_reconnect = false }

  drop_socket-Inv :
      (o : Option ℕ) (w : Client N)
      → w.ws ≡ o
      → Inv w
      → Inv (drop_socket o (record (unready w) { reconnect_attempts = 0 }))
  unfolding drop_socket ws_live unready
  drop_socket-Inv none w e h = record {
    one_timer = refl;
    stopped = λ _. refl;
    attempts_capped = ground arith;
    connected = λ k. cc;
    waiting = λ k. cc;
    single = h.single;
    fresh = h.fresh;
  }
  drop_socket-Inv (some s) w e h = record {
    one_timer = refl;
    stopped = λ _. refl;
    attempts_capped = ground arith;
    connected = λ k. cc;
    waiting = λ k. cc;
    single = λ i k. ground (arith, h.single i);
    fresh = λ i k. ground (arith, h.fresh i);
  }

  disconnect-Inv : (w : Client N) → Inv w → Inv (disconnect w)
  unfolding disconnect idle unready
  disconnect-Inv w h =
      rw (cancel_reconnect_lem (record w { should_reconnect = false }) h.one_timer)
        (drop_socket-Inv w.ws w refl h)

  on-Inv : (event : String) (c : ℕ) (w : Client N) → Inv w → Inv (on event c w)
  unfolding on
  on-Inv event c w h = frame-Inv _ w.log w h

  off-Inv : (event : String) (c : ℕ) (w : Client N) → Inv w → Inv (off event c w)
  unfolding off
  off-Inv event c w h =
      maybe_intro Inv (lookup event w.listeners) (λ _. h) (λ _ _. frame-Inv _ w.log w h)

  send-Inv : (text : String) (w : Client N) → Inv w → Inv (send text w)
  unfolding send
  send-Inv text w h =
      maybe_intro Inv w.ws (λ _. h)
        (λ s _.
          if_intro Inv (is_open (w.ready s))
            (λ _. frame-Inv w.listeners (w.log ++ transmit s text ∷ []) w h) (λ _. h))

  -- A live socket opens, or a live one starts to close.
  becomes-Inv :
      (s : ℕ) (r : Ready) (w : Client N)
      → is_live r ≡ true
      → is_live (w.ready s) ≡ true
      → Inv w
      → Inv (becomes s r w)
  unfolding ws_live
  becomes-Inv s r w live k h = record {
    one_timer = h.one_timer;
    stopped = h.stopped;
    attempts_capped = h.attempts_capped;
    connected = h.connected;
    waiting = λ q. ground (arith, h.waiting, h.single s);
    single = λ i q. ground (arith, h.single i);
    fresh = λ i q. ground (arith, h.fresh i);
  }

  -- A socket that is no longer live.
  dies-Inv : (s : ℕ) (r : Ready) (w : Client N) → is_live r ≡ false → Inv w → Inv (becomes s r w)
  unfolding ws_live
  dies-Inv s r w dead h = record {
    one_timer = h.one_timer;
    stopped = h.stopped;
    attempts_capped = h.attempts_capped;
    connected = h.connected;
    waiting = λ q. ground (arith, h.waiting);
    single = λ i q. ground (arith, h.single i);
    fresh = λ i q. ground (arith, h.fresh i);
  }

  opened-Inv :
      (w : Client N)
      → is_some w.ws ≡ true
      → Inv w
      → Inv (record w { is_connected = true; reconnect_attempts = 0 })
  unfolding ws_live
  opened-Inv w e h = record {
    one_timer = h.one_timer;
    stopped = h.stopped;
    attempts_capped = ground arith;
    connected = λ _. e;
    waiting = h.waiting;
    single = h.single;
    fresh = h.fresh;
  }

  on_open-Inv : (s : ℕ) (w : Client N) → Inv w → Inv (on_open s w)
  unfolding on_open
  on_open-Inv s w h =
      if_intro Inv (same_as s w.ws)
        (λ k. emit-Inv "connected" no_args _ (opened-Inv w (ground arith) h)) (λ _. h)

  on_error-Inv : (s : ℕ) (w : Client N) → Inv w → Inv (on_error s w)
  unfolding on_error
  on_error-Inv s w h = if_intro Inv (same_as s w.ws) (λ _. emit-Inv "error" failure w h) (λ _. h)

  -- The object forgets a socket that is no longer live.
  forgotten-Inv :
      (w : Client N)
      → ws_live w ≡ false
      → Inv w
      → Inv (record w { is_connected = false; ws = none })
  unfolding ws_live
  forgotten-Inv w dead h = record {
    one_timer = h.one_timer;
    stopped = h.stopped;
    attempts_capped = h.attempts_capped;
    connected = λ k. cc;
    waiting = λ _. refl;
    single = λ i k. ground (arith, no_live w h dead i);
    fresh = h.fresh;
  }

  on_close-Inv :
      (s r : ℕ) (w : Client N) → is_live (w.ready s) ≡ false → Inv w → Inv (on_close s r w)
  unfolding on_close
  on_close-Inv s r w dead h =
      if_intro Inv (same_as s w.ws)
        (λ k.
          let v : Inv (emit "disconnected" no_args (record w { is_connected = false; ws = none })) =
            emit-Inv "disconnected" no_args _
              (forgotten-Inv w (unfold ws_live in ground arith) h) in
          if_intro Inv w.should_reconnect
            (λ _. schedule_reconnect-Inv r _ v (unfold ws_live emit in refl)) (λ _. v))
        (λ _. h)

  deliver-Inv : (m : Option (Value N)) (w : Client N) → Inv w → Inv (deliver m w)
  deliver-Inv none w h = h
  deliver-Inv (some message) w h =
      maybe_intro Inv (type_of_envelope message) (λ _. h)
        (λ t _. emit-Inv "message" (envelope message) _ (emit-Inv t (fields_payload message) w h))

  on_message-Inv :
      (parse : String → Option (Value N)) (s : ℕ) (received : Option String) (w : Client N)
      → Inv w
      → Inv (on_message parse s received w)
  unfolding on_message close_socket
  on_message-Inv parse s received w h =
      if_intro Inv (same_as s w.ws)
        (λ _.
          if_intro Inv (ltb max_payload_bytes (len (or_else received ""))) (λ _. h)
            (λ _. deliver-Inv (parse (or_else received "")) w h))
        (λ _. h)

  -- The timer that fires is the one that the object knows of, and none is left.
  fired_lem :
      (t : ℕ) (w : Client N)
      → Armed w.reconnect_timer w.timers
      → Any (λ p. p.0 ≡ t) w.timers
      → record w { timers = keep (λ p. not (p.0 == t)) w.timers; reconnect_timer = none } ≡ idle w
  unfolding keep idle
  fired_lem t w h m = ground arith

  resume-Inv :
      (page : Page) (throws : Bool) (r : ℕ) (w : Client N)
      → w.reconnect_timer ≡ none
      → ws_live w ≡ false
      → Inv w
      → Inv (resume page throws r w)
  unfolding resume
  resume-Inv page throws r w e dead h =
      if_intro Inv w.should_reconnect (λ _. open_socket-Inv page throws r w h e dead) (λ _. h)

  -- While a timer is pending, the socket of the client is not live.
  pending_lem : (t : ℕ) (w : Client N) → Inv w → Any (λ p. p.0 ≡ t) w.timers → ws_live w ≡ false
  pending_lem t w h m = h.waiting (ground arith)

  on_timer-Inv :
      (page : Page) (t : ℕ) (throws : Bool) (r : ℕ) (w : Client N)
      → Any (λ p. p.0 ≡ t) w.timers
      → Inv w
      → Inv (on_timer page t throws r w)
  unfolding on_timer
  on_timer-Inv page t throws r w m h =
      subst (λ v. Inv (resume page throws r v)) (sym (fired_lem t w h.one_timer m))
        (resume-Inv page throws r (idle w) (unfold idle in refl)
          (unfold idle ws_live in pending_lem t w h m) (idle-Inv w h))

  module _ (page : Page) (parse : String → Option (Value N)) where
    step-Inv : (e : Event) (w : Client N) → Possible e w → Inv w → Inv (step page parse e w)
    unfolding step
    step-Inv (connects throws r) w p h = connect-Inv page throws r w h
    step-Inv disconnects w p h = disconnect-Inv w h
    step-Inv (subscribes event c) w p h = on-Inv event c w h
    step-Inv (unsubscribes event c) w p h = off-Inv event c w h
    step-Inv (sends text) w p h = send-Inv text w h
    step-Inv (socket_opens s) w p h =
        on_open-Inv s _ (becomes-Inv s ready_open w refl (ap is_live p) h)
    step-Inv (socket_fails s) w p h = on_error-Inv s w h
    step-Inv (socket_leaves s) w p h = dies-Inv s closing w refl h
    step-Inv (socket_receives s text) w p h = on_message-Inv parse s text w h
    step-Inv (socket_closes s r) w p h =
        on_close-Inv s r _ (ground arith) (dies-Inv s closed w refl h)
    step-Inv (timer_fires t throws r) w p h = on_timer-Inv page t throws r w p h

    pub Run-Inv : {start w : Client N} → Inv start → Run page parse start w → Inv w
    Run-Inv h here = h
    Run-Inv h (next {w = v} r e p) = step-Inv e v p (Run-Inv h r)

    -- Whatever the calls and the browser's events, two sockets that are connecting or open are the
    -- same socket, and it is the one that the client holds.
    pub Run-one_live_socket :
        (base_path : String) (w : Client N) (s t : ℕ)
        → Run page parse (initial base_path) w
        → is_live (w.ready s) ≡ true
        → is_live (w.ready t) ≡ true
        → (s ≡ t) × (w.ws ≡ some s)
    Run-one_live_socket b w s t r p q =
        let h = Run-Inv (initial-Inv b) r in ground (arith, h.single s p, h.single t q)

    -- Whatever the calls and the browser's events, at most one reconnection timer is pending, it
    -- is the one whose handle the client holds, none is pending after `disconnect` or beside a
    -- socket that is connecting or open, and the attempts stay within their limit.
    pub Run-one_timer :
        (base_path : String) (w : Client N)
        → Run page parse (initial base_path) w
        → Armed w.reconnect_timer w.timers
          × (w.should_reconnect ≡ false → w.timers ≡ [])
          × (ws_live w ≡ true → w.timers ≡ [])
          × (w.reconnect_attempts ≤ w.max_reconnect_attempts)
    Run-one_timer b w r =
        let h = Run-Inv (initial-Inv b) r in
        (h.one_timer, (λ k. ground arith), (λ k. ground arith), h.attempts_capped)
