-- ===== src/WebSocket/Silence.antt =====
-- What the client does between `disconnect` and the next call of `connect`.
use x_ui_glass.Shared.{String, ◌≡◌, false, Option, none, [], arith}
use x_ui_glass.Json.{Value}
use x_ui_glass.WebSocket.{Client, Page, disconnect, initial, drop_socket}
use x_ui_glass.WebSocket.Events.{Event, connects, disconnects, Possible, step, Run}
use x_ui_glass.WebSocket.Invariant.{Inv, idle, cancel_reconnect_lem, initial-Inv}
use x_ui_glass.WebSocket.Safety.{Run-Inv}

abbrev pub NoConnect : Event → Type 0
NoConnect (connects throws r) = ⊥
NoConnect _ = Unit

module _ {N : Type 0} (page : Page) (parse : String → Option (Value N)) where
  -- Steps among which no call of `connect` is.
  pub data QuietRun (start : Client N) : Client N → Type 0 where
    here : QuietRun start start
    next :
        {w : Client N}
        → QuietRun start w
        → (e : Event) → NoConnect e
        → Possible e w
        → QuietRun start (step page parse e w)

module _ {N : Type 0} where
  -- Nothing is held that could act, and nothing was done since the state `v`.
  pub record IsSilent (v w : Client N) : Type 0 where
    pub no_socket : w.ws ≡ none
    pub no_timer : w.timers ≡ []
    pub no_handle : w.reconnect_timer ≡ none
    pub offline : w.is_connected ≡ false
    pub no_retry : w.should_reconnect ≡ false
    pub same_log : w.log ≡ v.log
    pub same_sockets : w.sockets ≡ v.sockets

  abbrev stopping : Client N → Client N
  stopping w = record w { should_reconnect = false }

  drop_socket-IsSilent :
      (w : Client N)
      → let v = drop_socket w.ws (record (idle (stopping w)) { reconnect_attempts = 0 }) in
        IsSilent v v
  unfolding drop_socket idle
  drop_socket-IsSilent w = ground arith

  disconnect-IsSilent : (w : Client N) → Inv w → IsSilent (disconnect w) (disconnect w)
  disconnect-IsSilent w h =
      unfold disconnect idle in
      rw (cancel_reconnect_lem (stopping w) h.one_timer) (drop_socket-IsSilent w)

  module _ (page : Page) (parse : String → Option (Value N)) where
    step-IsSilent :
        (v w : Client N) (e : Event)
        → NoConnect e
        → Possible e w
        → IsSilent v w
        → IsSilent v (step page parse e w)
    unfolding step
    step-IsSilent v w disconnects n p h = ground arith
    step-IsSilent v w e n p h = ground arith

    QuietRun-IsSilent : (v w : Client N) → IsSilent v v → QuietRun page parse v w → IsSilent v w
    QuietRun-IsSilent v w h here = h
    QuietRun-IsSilent v w h (next {w = u} q e n p) =
        step-IsSilent v u e n p (QuietRun-IsSilent v u h q)

    -- From any state that a client reaches, once `disconnect` is called and as long as `connect`
    -- is not, nothing is dialled, sent or handed to a listener, no socket is made, and the client
    -- has no socket and no pending timer, whatever else happens.
    pub QuietRun-disconnect :
        (base_path : String) (w u : Client N)
        → Run page parse (initial base_path) w
        → QuietRun page parse (disconnect w) u
        → IsSilent (disconnect w) u
    QuietRun-disconnect b w u r q =
        QuietRun-IsSilent (disconnect w) u
          (disconnect-IsSilent w (Run-Inv page parse (initial-Inv b) r)) q
