-- ===== src/WebSocket/Backoff.antt =====
-- How long the client waits before it dials again, and two faults of its bookkeeping.
use Prim.Native.String.{len}
use x_ui_glass.Shared.{
  ℕ, zero, suc, ◌+◌, ◌*◌, ◌^◌, ◌≤◌, ◌<◌, String, ◌≡◌, refl, true, false, Option, some, [], ◌∷◌,
  arith, ltb, if◌then◌else◌, ap, if_intro, not, Bool-cases, inl, inr,
}
use x_ui_glass.Json.{Value}
use x_ui_glass.WebSocket.{
  Client, Page, connecting, closing, schedule_reconnect, reconnect_base, jittered, slow_retry_ms,
  max_payload_bytes, on_message, connect, count_and_arm, arm,
}
use x_ui_glass.WebSocket.Invariant.{Inv, idle, cancel_reconnect_lem}

-- What the program's comments and constants promise: 1 s, doubled each time, at most 30 s, and
-- one minute once ten attempts have failed.
abbrev pub expected_base : ℕ → ℕ
expected_base zero = 1000
expected_base (suc zero) = 2000
expected_base (suc (suc zero)) = 4000
expected_base (suc (suc (suc zero))) = 8000
expected_base (suc (suc (suc (suc zero)))) = 16000
expected_base (suc (suc (suc (suc (suc n))))) = if ltb n 5 then 30000 else 60000

base_lem : (n : ℕ) → (if ltb n 10 then reconnect_base (n + 1) else slow_retry_ms) ≡ expected_base n
base_lem zero = refl
base_lem (suc zero) = refl
base_lem (suc (suc zero)) = refl
base_lem (suc (suc (suc zero))) = refl
base_lem (suc (suc (suc (suc zero)))) = refl
base_lem (suc (suc (suc (suc (suc zero))))) = refl
base_lem (suc (suc (suc (suc (suc (suc zero)))))) = refl
base_lem (suc (suc (suc (suc (suc (suc (suc zero))))))) = refl
base_lem (suc (suc (suc (suc (suc (suc (suc (suc zero)))))))) = refl
base_lem (suc (suc (suc (suc (suc (suc (suc (suc (suc zero))))))))) = refl
base_lem (suc (suc (suc (suc (suc (suc (suc (suc (suc (suc n)))))))))) = ground arith

jitter_bounds :
    (base r : ℕ)
    → r < 2 ^ 53
    → 0 < base
    → (3 * (base * 2 ^ 53) ≤ jittered base r) × (jittered base r < 5 * (base * 2 ^ 53))
jitter_bounds base r h p = grind arith

expected_base-pos : (n : ℕ) → 0 < expected_base n
expected_base-pos zero = omega arith
expected_base-pos (suc zero) = omega arith
expected_base-pos (suc (suc zero)) = omega arith
expected_base-pos (suc (suc (suc zero))) = omega arith
expected_base-pos (suc (suc (suc (suc zero)))) = omega arith
expected_base-pos (suc (suc (suc (suc (suc n))))) = ground arith

module _ {N : Type 0} where
  count_and_arm-delay :
      (r : ℕ) (w : Client N)
      → w.max_reconnect_attempts ≡ 10
      → w.timers ≡ []
      → (count_and_arm r w).timers
        ≡ (w.next_timer, jittered (expected_base w.reconnect_attempts) r) ∷ []
  unfolding count_and_arm arm
  count_and_arm-delay r w e t = elim (Bool-cases (ltb w.reconnect_attempts 10)) [
    | inl k ↦ ground (arith, base_lem w.reconnect_attempts)
    | inr k ↦ ground (arith, base_lem w.reconnect_attempts)
  ]

  count_and_arm-attempts :
      (r : ℕ) (w : Client N)
      → w.max_reconnect_attempts ≡ 10
      → (count_and_arm r w).reconnect_attempts
        ≡ (if ltb w.reconnect_attempts 10 then w.reconnect_attempts + 1 else w.reconnect_attempts)
  unfolding count_and_arm arm
  count_and_arm-attempts r w e = ground arith

  schedule_reconnect_lem :
      (r : ℕ) (w : Client N)
      → Inv w
      → w.should_reconnect ≡ true
      → schedule_reconnect r w ≡ count_and_arm r (idle w)
  schedule_reconnect_lem r w h s =
      unfold schedule_reconnect in
      if_intro (λ v. v ≡ count_and_arm r (idle w)) (not w.should_reconnect) (λ k. ground arith)
        (λ _. ap (count_and_arm r) (cancel_reconnect_lem w h.one_timer))

  -- A client that may reconnect and keeps the limit of ten attempts, after n failed attempts, arms
  -- exactly one timer, for a time from 0.75 to 1.25 of 1, 2, 4, 8, 16 and then 30 seconds, or of
  -- one minute from the eleventh time on, and counts the attempt up to ten.
  pub delay-schedule_reconnect :
      (r : ℕ) (w : Client N)
      → Inv w
      → w.should_reconnect ≡ true
      → w.max_reconnect_attempts ≡ 10
      → r < 2 ^ 53
      → (d : ℕ) × ((schedule_reconnect r w).timers ≡ (w.next_timer, d) ∷ [])
        × (3 * (expected_base w.reconnect_attempts * 2 ^ 53) ≤ d)
        × (d < 5 * (expected_base w.reconnect_attempts * 2 ^ 53))
        × ((schedule_reconnect r w).reconnect_attempts ≡ (
            if ltb w.reconnect_attempts 10 then w.reconnect_attempts + 1 else w.reconnect_attempts))
  delay-schedule_reconnect r w h s e lt = (
    jittered (expected_base w.reconnect_attempts) r,
    rw (schedule_reconnect_lem r w h s) (unfold idle in count_and_arm-delay r (idle w) e refl),
    (jitter_bounds _ r lt (expected_base-pos w.reconnect_attempts)).0,
    (jitter_bounds _ r lt (expected_base-pos w.reconnect_attempts)).1,
    rw (schedule_reconnect_lem r w h s) (unfold idle in count_and_arm-attempts r (idle w) e),
  )

  -- A text message above the limit of ten mebibytes changes nothing: 1009 is a code with which
  -- `close` throws, so the socket that should be closed stays as it was.
  pub on_message_too_big :
      (parse : String → Option (Value N)) (s : ℕ) (text : String) (w : Client N)
      → max_payload_bytes < len text
      → on_message parse s (some text) w ≡ w
  unfolding on_message
  on_message_too_big parse s text w h = ground arith

  -- A client that is connected over a socket which has begun to close still calls itself connected
  -- after `connect` has put a socket in its place that is only connecting.
  pub connect_keeps_connected :
      (page : Page) (r s : ℕ) (w : Client N)
      → w.is_connected ≡ true
      → w.ws ≡ some s
      → w.ready s ≡ closing
      → ((connect page false r w).is_connected ≡ true)
        × ((connect page false r w).ws ≡ some w.sockets)
        × ((connect page false r w).ready w.sockets ≡ connecting)
  unfolding connect
  connect_keeps_connected page r s w c e k = ground arith
