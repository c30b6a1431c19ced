-- ===== src/Bridge.antt =====
-- The bridge from the event stream to the query cache: frontend/src/api/websocketBridge.ts and
-- invalidationTracker.ts of the same folder. A bridge is the timer of the module with the browser's
-- timers, the time of the last local change, and a log of what is asked of the query cache. The
-- handlers of a mounted bridge are the five numbers from `first`. A timer may fire at any time: its
-- delay of 200 ms is not counted.
pub mod Debounce
pub mod Tests
use x_ui_glass.Shared.{
  ℕ, ◌+◌, String, Bool, not, Option, none, some, List, [], ◌∷◌, ◌++◌, ltb, ◌==◌, if◌then◌else◌,
  str_eq, keep, maybe,
}
use x_ui_glass.Json.{Value, undefined, str, arr, obj, prop}
use x_ui_glass.WebSocket.{Client, on, off, connect, Page}

-- The two kinds of queries that the server invalidates.
pub data Kind : Type 0 where
  inbounds clients : Kind

pub data CacheCall (N : Type 0) : Type 0 where
  set_status set_outbounds set_nodes set_inbounds : Value N → CacheCall N
  invalidate_queries : Kind → CacheCall N

pub record Bridge (N : Type 0) : Type 0 where
  pub invalidate_timer : Option ℕ
  pub last_local : ℕ
  -- the browser's part: a timer with what its callback closes over
  pub timers : List (ℕ × Kind)
  pub next_timer : ℕ
  pub log : List (CacheCall N)

abbrev pub kind_named : String → Option Kind
kind_named t =
    if str_eq t "inbounds" then some inbounds else if str_eq t "clients" then some clients else none

module _ {N : Type 0} where
  unfoldable pub idle_bridge : Bridge N
  idle_bridge = record {
    invalidate_timer = none;
    last_local = 0;
    timers = [];
    next_timer = 0;
    log = [];
  }

  abbrev pub mark_local_invalidate : ℕ → Bridge N → Bridge N
  mark_local_invalidate now b = record b { last_local = now }

  -- A clock that was set back counts as recent, as in the code.
  abbrev pub is_recent_local_invalidate : ℕ → Bridge N → Bool
  is_recent_local_invalidate now b = ltb now (b.last_local + 1500)

  abbrev pub call_cache : CacheCall N → Bridge N → Bridge N
  call_cache c b = record b { log = b.log ++ c ∷ [] }

  -- The log has the payload that `new Status` is made of.
  unfoldable pub on_status : Value N → Bridge N → Bridge N
  on_status (arr vs) b = call_cache (set_status (arr vs)) b
  on_status (obj fs) b = call_cache (set_status (obj fs)) b
  on_status _ b = b

  -- `p.type`, where it is one of the two names
  unfoldable pub kind_of : Value N → Option Kind
  kind_of (obj fs) = elim (prop fs "type") [ str t ↦ kind_named t | _ ↦ none ]
  kind_of _ = none

  abbrev pub clear_timer : Bridge N → Bridge N
  clear_timer b = record b {
    timers = maybe b.invalidate_timer b.timers (λ t. keep (λ p. not (p.0 == t)) b.timers);
  }

  unfoldable pub arm_quiet : Kind → Bridge N → Bridge N
  arm_quiet k b = record b {
    invalidate_timer = some b.next_timer;
    timers = (b.next_timer, k) ∷ b.timers;
    next_timer = b.next_timer + 1;
  }

  unfoldable pub on_invalidate : Value N → Bridge N → Bridge N
  unfolding kind_of arm_quiet keep
  on_invalidate payload b = maybe (kind_of payload) b (λ k. arm_quiet k (clear_timer b))

  -- The callback of the timer.
  unfoldable pub on_quiet : Kind → ℕ → Bridge N → Bridge N
  on_quiet k now b =
      let freed : Bridge N = record b { invalidate_timer = none } in
      if is_recent_local_invalidate now freed
      then freed
      else call_cache (invalidate_queries k) freed

  abbrev pub set_data : (Value N → CacheCall N) → Value N → Bridge N → Bridge N
  set_data f (arr vs) b = call_cache (f (arr vs)) b
  set_data f _ b = b

  unfoldable pub on_outbounds : Value N → Bridge N → Bridge N
  on_outbounds payload b = call_cache (set_outbounds payload) b

  unfoldable pub on_nodes : Value N → Bridge N → Bridge N
  on_nodes payload b = set_data set_nodes payload b

  unfoldable pub on_inbounds : Value N → Bridge N → Bridge N
  on_inbounds payload b = set_data set_inbounds payload b

  -- The event that each handler is registered for.
  unfoldable pub handle : String → Value N → Bridge N → Bridge N
  unfolding on_status on_invalidate on_outbounds on_nodes on_inbounds
  handle event payload b =
      if str_eq event "status"
      then on_status payload b
      else if str_eq event "invalidate"
      then on_invalidate payload b
      else if str_eq event "outbounds"
      then on_outbounds payload b
      else if str_eq event "nodes"
      then on_nodes payload b
      else if str_eq event "inbounds"
      then on_inbounds payload b
      else b

  abbrev pub register : ℕ → Client N → Client N
  register first w = on "inbounds" (first + 4) (
      on "nodes" (first + 3)
        (on "outbounds" (first + 2) (on "invalidate" (first + 1) (on "status" first w))))

  abbrev pub unregister : ℕ → Client N → Client N
  unregister first w = off "inbounds" (first + 4) (
      off "nodes" (first + 3)
        (off "outbounds" (first + 2) (off "invalidate" (first + 1) (off "status" first w))))

  unfoldable pub mount : Page → Bool → ℕ → ℕ → Client N → Client N
  unfolding on connect
  mount page throws r first w = connect page throws r (register first w)

  unfoldable pub unmount : ℕ → Client N × Bridge N → Client N × Bridge N
  unfolding off keep
  unmount first (w, b) = (unregister first w, record (clear_timer b) { invalidate_timer = none })
