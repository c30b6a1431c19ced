-- ===== src/WebSocket/State.antt =====
-- The state of the client, its constants and the helpers that read no state.
use Prim.Native.Nat.{min}
use Prim.Native.Char.{code}
use x_ui_glass.Shared.{
  ℕ, ◌+◌, ◌-◌, ◌*◌, ◌^◌, String, Bool, true, false, ◌&&◌, ◌||◌, Option, none, some, List, [], ◌∷◌,
  leb, ◌==◌, if◌then◌else◌, ◌+++◌, is_some, or_text, after,
}
use x_ui_glass.Shared.Property.{map_set, remove}
use x_ui_glass.Json.{Value}

pub data Ready : Type 0 where
  connecting ready_open closing closed : Ready

abbrev pub is_live : Ready → Bool
is_live connecting = true
is_live ready_open = true
is_live _ = false

-- What a listener is called with.
pub data Args (N : Type 0) : Type 0 where
  no_args failure : Args N
  payload : Value N → Value N → Args N
  envelope : Value N → Args N

pub data Effect (N : Type 0) : Type 0 where
  call : ℕ → String → Args N → Effect N
  dial : String → Effect N
  transmit : ℕ → String → Effect N

pub record Client (N : Type 0) : Type 0 where
  pub base_path : String
  pub max_reconnect_attempts : ℕ
  pub reconnect_attempts : ℕ
  pub is_connected : Bool
  pub ws : Option ℕ
  pub should_reconnect : Bool
  pub reconnect_timer : Option ℕ
  pub listeners : List (String × List ℕ)
  -- the browser's part
  pub sockets : ℕ
  pub ready : ℕ → Ready
  pub timers : List (ℕ × ℕ)
  pub next_timer : ℕ
  pub log : List (Effect N)

-- `window.location`, as far as `#buildUrl` reads it.
pub record Page : Type 0 where
  pub is_https : Bool
  pub host : String

abbrev pub max_payload_bytes : ℕ
max_payload_bytes = 10 * 1024 * 1024

abbrev pub base_reconnect_ms : ℕ
base_reconnect_ms = 1000

abbrev pub max_reconnect_ms : ℕ
max_reconnect_ms = 30000

abbrev pub slow_retry_ms : ℕ
slow_retry_ms = 60000

ends_with_slash : String → Bool
ends_with_slash String.[] = false
ends_with_slash (String.◌∷◌ c String.[]) = code c == b'/'
ends_with_slash (String.◌∷◌ c s) = ends_with_slash s

unfoldable pub build_url : Page → String → String
unfolding ends_with_slash after
build_url page base_path =
    let protocol = if page.is_https then "wss:" else "ws:" in
    let base = or_text base_path "/" in
    let led = if is_some (after "/" base) then base else "/" +++ base in
    let closed_off = if ends_with_slash led then led else led +++ "/" in
    protocol +++ "//" +++ page.host +++ closed_off +++ "ws"

-- `WebSocket.close(code)` throws on a code other than 1000 and 3000 to 4999.
abbrev pub may_close : ℕ → Bool
may_close code = code == 1000 || (leb 3000 code && leb code 4999)

abbrev pub set_ready : ℕ → Ready → (ℕ → Ready) → ℕ → Ready
set_ready s r f i = if i == s then r else f i

abbrev pub begin_close : Ready → Ready
begin_close closed = closed
begin_close _ = closing

abbrev pub contains : ℕ → List ℕ → Bool
contains c [] = false
contains c (x ∷ xs) = x == c || contains c xs

abbrev pub same_as : ℕ → Option ℕ → Bool
same_as s none = false
same_as s (some t) = t == s

abbrev pub reconnect_base : ℕ → ℕ
reconnect_base attempts = min max_reconnect_ms (base_reconnect_ms * 2 ^ (attempts - 1))

abbrev pub jittered : ℕ → ℕ → ℕ
jittered base r = base * (3 * 2 ^ 53 + 2 * r)

abbrev pub off_from : String → List ℕ → List (String × List ℕ) → List (String × List ℕ)
off_from event [] m = remove event m
off_from event (x ∷ xs) m = map_set event (x ∷ xs) m

abbrev pub is_open : Ready → Bool
is_open ready_open = true
is_open _ = false
