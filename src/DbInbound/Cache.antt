-- ===== src/DbInbound/Cache.antt =====
-- The map of the statistics as a cache: what a request returns, whatever has been done before.
use x_ui_glass.Shared.{
  String, not, ◌&&◌, ◌≡◌, refl, ap, ◌∙◌, Option, none, some, List, [], ◌∷◌, ◌++◌, if◌then◌else◌,
  is_empty, str_eq, or_else, Bool-cases, inl, inr,
}
use x_ui_glass.Shared.Property.{lookup, lookup-map_set}
use x_ui_glass.DbInbound.{
  DbInbound, ClientStats, get_client_stats, invalidate_cache, build, built, set_stats,
}

-- `clientStats` as a value: `none` is what is no list, or no entry.
abbrev pub Stats : Type 0 → Type 0
Stats N = Option (List (Option (ClientStats N)))

-- What is done with an inbound: a request for statistics, `invalidateCache`, or an assignment to
-- `clientStats`.
pub data Op (N : Type 0) : Type 0 where
  request : String → Op N
  invalidate : Op N
  assign : Stats N → Op N

-- The specification keeps no map: the list, and the list as it was at the first request since the
-- cache was dropped.
pub record Spec (N : Type 0) : Type 0 where
  pub current : Stats N
  pub seen : Option (Stats N)

module _ {N : Type 0} where
  -- The last entry of a list that has the address, which is not empty; `found` where there is none.
  latest : String → List (Option (ClientStats N)) → Option (ClientStats N) → Option (ClientStats N)
  latest email [] found = found
  latest email (none ∷ ss) found = latest email ss found
  latest email (some s ∷ ss) found =
      latest email ss (if not (is_empty s.email) && str_eq s.email email then some s else found)

  -- The operations as the class has them, with what each request returns.
  step : Op N → DbInbound N → DbInbound N × List (Option (ClientStats N))
  unfolding get_client_stats invalidate_cache
  step (request email) db = ((get_client_stats email db).0, (get_client_stats email db).1 ∷ [])
  step invalidate db = (invalidate_cache db, [])
  step (assign stats) db = (record db { client_stats = stats }, [])

  unfoldable pub run : List (Op N) → DbInbound N → List (Option (ClientStats N))
  unfolding step
  run [] db = []
  run (op ∷ ops) db = (step op db).1 ++ run ops (step op db).0

  spec_step : Op N → Spec N → Spec N × List (Option (ClientStats N))
  unfolding latest
  spec_step (request email) s =
      let stats = or_else s.seen s.current in
      (record s { seen = some stats }, latest email (or_else stats []) none ∷ [])
  spec_step invalidate s = (record s { seen = none }, [])
  spec_step (assign stats) s = (record s { current = stats }, [])

  unfoldable pub spec_run : List (Op N) → Spec N → List (Option (ClientStats N))
  unfolding spec_step
  spec_run [] s = []
  spec_run (op ∷ ops) s = (spec_step op s).1 ++ spec_run ops (spec_step op s).0

  lookup-set_stats :
      (email : String) (s : ClientStats N) (m : List (String × ClientStats N))
      → lookup email (set_stats (some s) m)
        ≡ (if not (is_empty s.email) && str_eq s.email email then some s else lookup email m)
  lookup-set_stats email s m = elim (Bool-cases (is_empty s.email)) [
    | inl e ↦ rw e refl
    | inr e ↦ rw e (lookup-map_set s.email email s m)
  ]

  -- The map has the last entry of each address.
  lookup-build :
      (email : String) (ss : List (Option (ClientStats N))) (m : List (String × ClientStats N))
      → lookup email (build ss m) ≡ latest email ss (lookup email m)
  unfolding build latest
  lookup-build email [] m = refl
  lookup-build email (none ∷ ss) m = lookup-build email ss m
  lookup-build email (some s ∷ ss) m =
      lookup-build email ss (set_stats (some s) m)
      ∙ ap (latest email ss) (lookup-set_stats email s m)

  -- The cache is the map of the list that the specification has seen.
  abbrev cache_of : Option (Stats N) → Option (List (String × ClientStats N))
  cache_of none = none
  cache_of (some stats) = some (built stats)

  record Simulates (db : DbInbound N) (s : Spec N) : Type 0 where
    lists : db.client_stats ≡ s.current
    cached : db.cache ≡ cache_of s.seen

  -- The map that a request looks into.
  looked_into :
      (seen : Option (Stats N)) (current : Stats N)
      → or_else (cache_of seen) (built current) ≡ built (or_else seen current)
  looked_into none current = refl
  looked_into (some stats) current = refl

  step-Simulates :
      (op : Op N) (db : DbInbound N) (s : Spec N)
      → Simulates db s
      → Simulates (step op db).0 (spec_step op s).0 × ((step op db).1 ≡ (spec_step op s).1)
  unfolding step spec_step get_client_stats invalidate_cache
  step-Simulates (request email) db s h =
      let same : or_else db.cache (built db.client_stats) ≡ built (or_else s.seen s.current) =
        rw (h.lists, h.cached) (looked_into s.seen s.current) in
      (
        record { lists = h.lists; cached = ap some same },
        ap (λ m. lookup email m ∷ []) same
            ∙ ap (λ o. o ∷ []) (lookup-build email (or_else (or_else s.seen s.current) []) []),
      )
  step-Simulates invalidate db s h = (record { lists = h.lists; cached = refl }, refl)
  step-Simulates (assign stats) db s h = (record { lists = refl; cached = h.cached }, refl)

  run-spec_run :
      (ops : List (Op N)) (db : DbInbound N) (s : Spec N)
      → Simulates db s
      → run ops db ≡ spec_run ops s
  unfolding run spec_run
  run-spec_run [] db s h = refl
  run-spec_run (op ∷ ops) db s h =
      let (h', out) = step-Simulates op db s h in
      λ i. out i ++ run-spec_run ops (step op db).0 (spec_step op s).0 h' i

  -- Whatever is done with an inbound that has no cache yet, each request returns the last entry of
  -- its address in the list as it was at the first request since the cache was dropped.
  pub run-refines :
      (ops : List (Op N)) (db : DbInbound N)
      → db.cache ≡ none
      → run ops db ≡ spec_run ops (record { current = db.client_stats; seen = none })
  run-refines ops db h =
      run-spec_run ops db (record { current = db.client_stats; seen = none })
        (record { lists = refl; cached = h })
