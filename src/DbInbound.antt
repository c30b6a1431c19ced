-- ===== src/DbInbound.antt =====
-- frontend/src/models/dbinbound.ts: a stored inbound, its address and the statistics of its clients,
-- which are looked up in a map that is built on the first request.
pub mod Cache
mod Tests
use x_ui_glass.Shared.{
  String, Bool, true, false, not, ◌&&◌, Option, none, some, List, [], ◌∷◌, if◌then◌else◌, is_empty,
  str_eq, or_else,
}
use x_ui_glass.Shared.Property.{lookup, map_set}

pub record ClientStats (N : Type 0) : Type 0 where
  pub email : String
  pub up : N
  pub down : N
  pub total : N
  pub expiry_time : N

-- The fields that the methods use; `none` in `client_stats` is what is no list, or no entry.
pub record DbInbound (N : Type 0) : Type 0 where
  pub protocol : String
  pub listen : String
  pub client_stats : Option (List (Option (ClientStats N)))
  pub cache : Option (List (String × ClientStats N))

module _ {N : Type 0} where
  -- `isVMess`, `isVLess` and the others: `this.protocol === name`
  unfoldable pub is_protocol : String → DbInbound N → Bool
  is_protocol name db = str_eq db.protocol name

  -- `address`; `hostname` is that of the page.
  unfoldable pub address : String → DbInbound N → String
  address hostname db =
      if not (is_empty db.listen) && not (str_eq db.listen "0.0.0.0") then db.listen else hostname

  unfoldable pub invalidate_cache : DbInbound N → DbInbound N
  invalidate_cache db = record db { cache = none }

  -- `if (stats && stats.email) map.set(stats.email, stats)`
  abbrev pub set_stats :
      Option (ClientStats N) → List (String × ClientStats N) → List (String × ClientStats N)
  set_stats none m = m
  set_stats (some stats) m = if is_empty stats.email then m else map_set stats.email stats m

  unfoldable pub build :
      List (Option (ClientStats N)) → List (String × ClientStats N) → List (String × ClientStats N)
  unfolding map_set
  build [] m = m
  build (s ∷ ss) m = build ss (set_stats s m)

  abbrev pub built : Option (List (Option (ClientStats N))) → List (String × ClientStats N)
  built stats = build (or_else stats []) []

  unfoldable pub get_client_stats : String → DbInbound N → DbInbound N × Option (ClientStats N)
  unfolding build lookup
  get_client_stats email db =
      let m = or_else db.cache (built db.client_stats) in
      (record db { cache = some m }, lookup email m)
