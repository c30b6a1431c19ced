-- ===== src/DbInbound/Tests.antt =====
-- The statistics of a stored inbound, asked for before and after a change.
use x_ui_glass.Shared.{ℕ, ◌≡◌, refl, none, some, [], ◌∷◌, List}
use x_ui_glass.DbInbound.{DbInbound, ClientStats}
use x_ui_glass.DbInbound.Cache.{Op, request, invalidate, assign, run, spec_run, run-refines}

abbrev used : ℕ → ClientStats ℕ
used n = record { email = "a"; up = n; down = 0; total = 0; expiry_time = 0 }

abbrev inbound : DbInbound ℕ
inbound = record {
  protocol = "vless";
  listen = "";
  client_stats = some (some (used 1) ∷ none ∷ some (used 2) ∷ []);
  cache = none;
}

abbrev ops : List (Op ℕ)
ops = request "a" ∷ assign (some (some (used 3) ∷ [])) ∷ request "a" ∷ invalidate ∷ request "a" ∷ []

run-refines_example :
    run ops inbound ≡ spec_run ops (record { current = inbound.client_stats; seen = none })
run-refines_example = run-refines ops inbound refl

-- An assignment alone is not seen.
stale : run ops inbound ≡ some (used 2) ∷ some (used 2) ∷ some (used 3) ∷ []
unfolding run
stale = refl
