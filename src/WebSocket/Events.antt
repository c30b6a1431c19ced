-- ===== src/WebSocket/Events.antt =====
-- What can happen to the client: the calls of its methods, and what the browser does with its
-- sockets and timers, in any order that the browser allows.
use x_ui_glass.Shared.{ℕ, String, ◌≡◌, Bool, true, Option, Any}
use x_ui_glass.Json.{Value}
use x_ui_glass.WebSocket.{
  Client, Page, Ready, connecting, ready_open, closing, closed, is_live, set_ready, connect,
  disconnect, on, off, send, on_open, on_error, on_close, on_message, on_timer,
}

pub data Event : Type 0 where
  connects : Bool → ℕ → Event
  disconnects : Event
  subscribes unsubscribes : String → ℕ → Event
  sends : String → Event
  socket_opens socket_fails socket_leaves : ℕ → Event
  socket_receives : ℕ → Option String → Event
  socket_closes : ℕ → ℕ → Event
  timer_fires : ℕ → Bool → ℕ → Event

module _ {N : Type 0} where
  -- The states of a socket only go forward, and only a pending timer fires.
  abbrev pub Possible : Event → Client N → Type 0
  Possible (socket_opens s) w = w.ready s ≡ connecting
  Possible (socket_receives s text) w = w.ready s ≡ ready_open
  Possible (socket_leaves s) w = is_live (w.ready s) ≡ true
  Possible (timer_fires t throws r) w = Any (λ p. p.0 ≡ t) w.timers
  Possible _ w = Unit

  abbrev pub becomes : ℕ → Ready → Client N → Client N
  becomes s r w = record w { ready = set_ready s r w.ready }

  module _ (page : Page) (parse : String → Option (Value N)) where
    unfoldable pub step : Event → Client N → Client N
    unfolding connect disconnect on off send on_open on_error on_close on_message on_timer
    step (connects throws r) w = connect page throws r w
    step disconnects w = disconnect w
    step (subscribes event c) w = on event c w
    step (unsubscribes event c) w = off event c w
    step (sends text) w = send text w
    step (socket_opens s) w = on_open s (becomes s ready_open w)
    step (socket_fails s) w = on_error s w
    step (socket_leaves s) w = becomes s closing w
    step (socket_receives s text) w = on_message parse s text w
    step (socket_closes s r) w = on_close s r (becomes s closed w)
    step (timer_fires t throws r) w = on_timer page t throws r w

    -- The states that a client passes through.
    pub data Run (start : Client N) : Client N → Type 0 where
      here : Run start start
      next : {w : Client N} → Run start w → (e : Event) → Possible e w → Run start (step e w)
