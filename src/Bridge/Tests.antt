-- ===== src/Bridge/Tests.antt =====
-- The bridge on concrete messages, and the theorems at them.
use x_ui_glass.Shared.{ℕ, true, false, ◌≡◌, refl, arith, some, [], ◌∷◌, ◌++◌, List}
use x_ui_glass.Json.{Value, prop, end, field, str, arr, obj, nil, null}
use x_ui_glass.WebSocket.{Client, Page}
use x_ui_glass.WebSocket as Socket
use x_ui_glass.Bridge.{
  clients, idle_bridge, on_invalidate, invalidate_queries, set_nodes, kind_of, mount, unmount,
}
use x_ui_glass.Bridge.Debounce.{
  Event, message, local_change, timer_fires, IsDebounced, run, step, burst, run-IsDebounced,
  burst_lem,
}

-- `{ type: t }`
abbrev named : Value ℕ → Value ℕ
named t = obj (field "type" t end)

abbrev events : List (Event ℕ)
events =
    message "invalidate" (named (str "inbounds"))
    ∷ message "nodes" (arr nil)
    ∷ message "nodes" null
    ∷ message "invalidate" (named (str "clients"))
    ∷ timer_fires 0 4000
    ∷ timer_fires 1 5000
    ∷ []

run-IsDebounced_example : IsDebounced (run events idle_bridge)
unfolding idle_bridge
run-IsDebounced_example = run-IsDebounced events idle_bridge refl

-- The first timer was cleared, so that the inbounds are not asked for.
log_of_events : (run events idle_bridge).log ≡ set_nodes (arr nil) ∷ invalidate_queries clients ∷ []
unfolding run prop idle_bridge
log_of_events = refl

recent :
    (run
      (local_change 4000 ∷ message "invalidate" (named (str "inbounds")) ∷ timer_fires 0 5000 ∷ [])
      (idle_bridge {N = ℕ})).log
    ≡ []
unfolding run prop idle_bridge
recent = refl

names_clients : kind_of (named (str "clients")) ≡ some clients
unfolding kind_of prop
names_clients = refl

burst_lem_example :
    let c =
      on_invalidate (named (str "clients")) (burst (named (str "inbounds") ∷ []) idle_bridge) in
    (t : ℕ) × (c.invalidate_timer ≡ some t)
    × (c.timers ≡ (t, clients) ∷ [])
    × ((step (timer_fires t 9000) c).log ≡ [] ++ invalidate_queries clients ∷ [])
unfolding idle_bridge
burst_lem_example =
    burst_lem (named (str "inbounds") ∷ []) (named (str "clients")) clients 9000 idle_bridge refl
      names_clients (omega arith)

abbrev page : Page
page = record { is_https = true; host = "panel.example" }

abbrev mounted : Client ℕ
mounted = mount page false 0 7 (Socket.initial "/")

mounted_handlers :
    mounted.listeners
    ≡ ("status", 7 ∷ [])
      ∷ ("invalidate", 8 ∷ [])
      ∷ ("outbounds", 9 ∷ [])
      ∷ ("nodes", 10 ∷ [])
      ∷ ("inbounds", 11 ∷ [])
      ∷ []
unfolding mount Socket.initial
mounted_handlers = refl

unmounted : (unmount 7 (mounted, idle_bridge)).0.listeners ≡ []
unfolding mount unmount Socket.initial
unmounted = refl
