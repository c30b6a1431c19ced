-- ===== src/WebSocket.antt =====
-- frontend/src/api/websocket.ts: `WebSocketClient`. One record holds the object's fields and what
-- the browser keeps for it: the state of each socket, the pending timers, and a log of what the
-- object does to its listeners and to the network. The listeners are numbers; that one throws is
-- caught by `#emit` and changes nothing here, and none calls the object back. `Math.random()` is
-- r / 2 ^ 53, and a delay is counted in units of 2 ^ -55 ms, so that the products are exact.
mod State
pub mod Events
pub mod Invariant
pub mod Safety
pub mod Backoff
pub mod Silence
mod Tests
use Prim.Native.Nat.{min}
use Prim.Native.Char.{code}
use Prim.Native.String.{len}
use x_ui_glass.Shared.{
  ℕ, ◌+◌, ◌-◌, ◌*◌, ◌^◌, String, Bool, true, false, not, ◌&&◌, ◌||◌, Option, none, some, List, [],
  ◌∷◌, ◌++◌, map, ltb, leb, ◌==◌, if◌then◌else◌, or_else, maybe, ◌+++◌, keep, is_some, or_text,
  after,
}
use x_ui_glass.Shared.Property.{lookup, map_set, remove}
use x_ui_glass.Json.{Value, str, obj, prop}
unfoldable pub use State.*

module _ {N : Type 0} where
  unfoldable pub initial : String → Client N
  initial base_path = record {
    base_path = base_path;
    max_reconnect_attempts = 10;
    reconnect_attempts = 0;
    is_connected = false;
    ws = none;
    should_reconnect = true;
    reconnect_timer = none;
    listeners = [];
    sockets = 0;
    ready = λ _. closed;
    timers = [];
    next_timer = 0;
    log = [];
  }

  -- `this.ws && (readyState is OPEN or CONNECTING)`
  unfoldable pub ws_live : Client N → Bool
  ws_live w = elim w.ws [ none ↦ false | some s ↦ is_live (w.ready s) ]

  -- `try { socket.close(code) } catch {}`
  unfoldable pub close_socket : ℕ → ℕ → Client N → Client N
  close_socket code s w =
      if may_close code
      then record w { ready = set_ready s (begin_close (w.ready s)) w.ready }
      else w

  unfoldable pub emit : String → Args N → Client N → Client N
  emit event args w = record w {
    log = w.log ++ map (λ c. call c event args) (or_else (lookup event w.listeners) []);
  }

  unfoldable pub cancel_reconnect : Client N → Client N
  cancel_reconnect w = elim w.reconnect_timer [
    | none ↦ w
    | some t ↦ record w { timers = keep (λ p. not (p.0 == t)) w.timers; reconnect_timer = none }
  ]

  -- `setTimeout`
  unfoldable pub arm : ℕ → ℕ → Client N → Client N
  arm base r w = record w {
    reconnect_timer = some w.next_timer;
    timers = (w.next_timer, jittered base r) ∷ w.timers;
    next_timer = w.next_timer + 1;
  }

  -- The next attempt, counted up to the limit.
  unfoldable pub count_and_arm : ℕ → Client N → Client N
  unfolding arm
  count_and_arm r w =
      if ltb w.reconnect_attempts w.max_reconnect_attempts
      then arm (reconnect_base (w.reconnect_attempts + 1)) r
          (record w { reconnect_attempts = w.reconnect_attempts + 1 })
      else arm slow_retry_ms r w

  unfoldable pub schedule_reconnect : ℕ → Client N → Client N
  unfolding count_and_arm cancel_reconnect
  schedule_reconnect r w =
      if not w.should_reconnect then w else count_and_arm r (cancel_reconnect w)

  -- `throws` says that the constructor of the socket throws.
  unfoldable pub open_socket : Page → Bool → ℕ → Client N → Client N
  unfolding build_url emit schedule_reconnect
  open_socket page throws r w =
      if throws then schedule_reconnect r (emit "error" failure w) else record w {
        ws = some w.sockets;
        sockets = w.sockets + 1;
        ready = set_ready w.sockets connecting w.ready;
        log = w.log ++ dial (build_url page w.base_path) ∷ [];
      }

  unfoldable pub connect : Page → Bool → ℕ → Client N → Client N
  unfolding ws_live cancel_reconnect open_socket
  connect page throws r w =
      if ws_live w
      then w
      else open_socket page throws r (cancel_reconnect (record w { should_reconnect = true }))

  -- The end of `disconnect`.
  unfoldable pub drop_socket : Option ℕ → Client N → Client N
  unfolding close_socket
  drop_socket none w = record w { is_connected = false }
  drop_socket (some s) w = record (close_socket 1000 s w) { ws = none; is_connected = false }

  unfoldable pub disconnect : Client N → Client N
  unfolding cancel_reconnect drop_socket
  disconnect w =
      let v = cancel_reconnect (record w { should_reconnect = false }) in
      drop_socket v.ws (record v { reconnect_attempts = 0 })

  unfoldable pub on : String → ℕ → Client N → Client N
  unfolding lookup map_set
  on event callback w =
      let set = or_else (lookup event w.listeners) [] in
      record w {
        listeners =
            map_set event (if contains callback set then set else set ++ callback ∷ []) w.listeners;
      }

  unfoldable pub off : String → ℕ → Client N → Client N
  unfolding lookup map_set keep remove
  off event callback w = maybe (lookup event w.listeners) w (λ set. record w {
    listeners = off_from event (keep (λ c. not (c == callback)) set) w.listeners;
  })

  -- `text` is `JSON.stringify(data)`.
  unfoldable pub send : String → Client N → Client N
  send text w =
      maybe w.ws w
        (λ s. if is_open (w.ready s) then record w { log = w.log ++ transmit s text ∷ [] } else w)

  -- The handlers that `#openSocket` gives to socket `s`.
  unfoldable pub on_open : ℕ → Client N → Client N
  unfolding emit
  on_open s w =
      if same_as s w.ws
      then emit "connected" no_args (record w { is_connected = true; reconnect_attempts = 0 })
      else w

  unfoldable pub on_error : ℕ → Client N → Client N
  unfolding emit
  on_error s w = if same_as s w.ws then emit "error" failure w else w

  unfoldable pub on_close : ℕ → ℕ → Client N → Client N
  unfolding emit schedule_reconnect
  on_close s r w =
      if same_as s w.ws
      then (let v = emit "disconnected" no_args (record w { is_connected = false; ws = none }) in
          if v.should_reconnect then schedule_reconnect r v else v)
      else w

  -- `typeof message.type === 'string'`, for an object
  abbrev pub type_of_envelope : Value N → Option String
  type_of_envelope (obj fs) = elim (prop fs "type") [ str t ↦ some t | _ ↦ none ]
  type_of_envelope _ = none

  abbrev pub fields_payload : Value N → Args N
  fields_payload (obj fs) = payload (prop fs "payload") (prop fs "time")
  fields_payload _ = no_args

  abbrev pub deliver : Option (Value N) → Client N → Client N
  deliver none w = w
  deliver (some message) w =
      maybe (type_of_envelope message) w
        (λ t. emit "message" (envelope message) (emit t (fields_payload message) w))

  -- `data` is `none` where it is no text; `len` counts the bytes of its UTF-8.
  unfoldable pub on_message : (String → Option (Value N)) → ℕ → Option String → Client N → Client N
  unfolding emit close_socket prop
  on_message parse s received w =
      let text = or_else received "" in
      if same_as s w.ws
      then if ltb max_payload_bytes (len text)
        then close_socket 1009 s w
        else deliver (parse text) w
      else w

  -- The callback of the reconnection timer `t`, which the browser drops as it calls it.
  unfoldable pub resume : Page → Bool → ℕ → Client N → Client N
  unfolding open_socket
  resume page throws r w = if w.should_reconnect then open_socket page throws r w else w

  unfoldable pub on_timer : Page → ℕ → Bool → ℕ → Client N → Client N
  unfolding resume
  on_timer page t throws r w =
      resume page throws r
        (record w { timers = keep (λ p. not (p.0 == t)) w.timers; reconnect_timer = none })
