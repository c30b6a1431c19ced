-- ===== src/WebSocket/Tests.antt =====
-- Runs of the client on concrete pages, and the theorems at them.
use Prim.Native.String.{len}
use x_ui_glass.Shared.{
  ℕ, zero, suc, ◌+++◌, ◌+◌, ◌*◌, ◌^◌, ◌<◌, ◌≤◌, String, ◌≡◌, refl, true, false, Option, none, some,
  [], ◌∷◌, arith, ltb, if◌then◌else◌,
}
use x_ui_glass.Json.{Value}
use x_ui_glass.WebSocket.{
  Client, Page, connecting, closing, ws_live, set_ready, initial, build_url, connect, disconnect,
  on_message, schedule_reconnect, max_payload_bytes,
}
use x_ui_glass.WebSocket.Events.{connects, socket_closes, Run, step, here, next}
use x_ui_glass.WebSocket.Invariant.{Armed, initial-Inv}
use x_ui_glass.WebSocket.Safety.{Run-one_live_socket, Run-one_timer}
use x_ui_glass.WebSocket.Backoff.{
  expected_base, delay-schedule_reconnect, on_message_too_big, connect_keeps_connected,
}
use x_ui_glass.WebSocket.Silence.{QuietRun, IsSilent, QuietRun-disconnect}

abbrev page : Page
page = record { is_https = true; host = "panel.example:2053" }

abbrev parse : String → Option (Value ℕ)
parse _ = none

abbrev fresh : Client ℕ
fresh = initial "/"

build_url_runs : build_url page "base" ≡ "wss://panel.example:2053/base/ws"
unfolding build_url
build_url_runs = refl

build_url_default : build_url page "" ≡ "wss://panel.example:2053/ws"
unfolding build_url
build_url_default = refl

abbrev dialled : Client ℕ
dialled = step page parse (connects false 0) fresh

dialled-Run : Run page parse fresh dialled
dialled-Run = next here (connects false 0) tt

Run-one_live_socket_example : ◌≡◌ {A = ℕ} 0 0 × (dialled.ws ≡ some 0)
unfolding step initial
Run-one_live_socket_example = Run-one_live_socket page parse "/" dialled 0 0 dialled-Run refl refl

-- The socket closes before it opens.
abbrev lost : Client ℕ
lost = step page parse (socket_closes 0 7) dialled

lost-Run : Run page parse fresh lost
lost-Run = next dialled-Run (socket_closes 0 7) tt

lost_waits : (lost.reconnect_timer ≡ some 0) × (lost.reconnect_attempts ≡ 1)
unfolding step initial
lost_waits = (refl, refl)

Run-one_timer_example :
    Armed lost.reconnect_timer lost.timers
    × (lost.should_reconnect ≡ false → lost.timers ≡ [])
    × (ws_live lost ≡ true → lost.timers ≡ [])
    × (lost.reconnect_attempts ≤ lost.max_reconnect_attempts)
Run-one_timer_example = Run-one_timer page parse "/" lost lost-Run

QuietRun-disconnect_example :
    IsSilent (disconnect lost) (step page parse (socket_closes 0 3) (disconnect lost))
QuietRun-disconnect_example =
    QuietRun-disconnect page parse "/" lost (step page parse (socket_closes 0 3) (disconnect lost))
      lost-Run (QuietRun.next QuietRun.here (socket_closes 0 3) tt tt)

delay-schedule_reconnect_example :
    (d : ℕ) × ((schedule_reconnect 5 fresh).timers ≡ (fresh.next_timer, d) ∷ [])
    × (3 * (expected_base fresh.reconnect_attempts * 2 ^ 53) ≤ d)
    × (d < 5 * (expected_base fresh.reconnect_attempts * 2 ^ 53))
    × ((schedule_reconnect 5 fresh).reconnect_attempts ≡ (
        if ltb fresh.reconnect_attempts 10
        then fresh.reconnect_attempts + 1
        else fresh.reconnect_attempts))
unfolding initial
delay-schedule_reconnect_example =
    delay-schedule_reconnect 5 fresh (initial-Inv "/") refl refl (omega arith)

-- 2 ^ 24 characters
doubled : ℕ → String → String
doubled zero s = s
doubled (suc n) s = doubled n (s +++ s)

doubled-long : max_payload_bytes < len (doubled 24 "x")
unfolding doubled
doubled-long = omega arith

on_message_too_big_example : on_message parse 0 (some (doubled 24 "x")) dialled ≡ dialled
on_message_too_big_example = on_message_too_big parse 0 (doubled 24 "x") dialled doubled-long

abbrev half_closed : Client ℕ
half_closed = record fresh {
  is_connected = true;
  ws = some 0;
  sockets = 1;
  ready = set_ready 0 closing fresh.ready;
}

connect_keeps_connected_example :
    ((connect page false 0 half_closed).is_connected ≡ true)
    × ((connect page false 0 half_closed).ws ≡ some half_closed.sockets)
    × ((connect page false 0 half_closed).ready half_closed.sockets ≡ connecting)
connect_keeps_connected_example = connect_keeps_connected page 0 0 half_closed refl refl refl
