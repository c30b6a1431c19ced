-- ===== src/PanelVersion.antt =====
-- Whether a panel has an update: frontend/src/lib/panel-version.ts. What `Number` makes of digits,
-- which is rounded where they are many, and `>` on the results are arguments.
pub mod Order
pub mod Tests
use x_ui_glass.Shared.{
  String, Bool, true, false, not, ◌&&◌, ◌||◌, Option, none, some, List, [], ◌∷◌, is_empty, str_eq,
  if◌then◌else◌, or_else, after, trim, split, all_digits,
}

-- `.trim().replace(/^v/, '')`
unfoldable pub normalized : String → String
unfolding trim after
normalized version = or_else (after "v" (trim version)) (trim version)

-- `/^\d+$/`
abbrev pub is_numeral : String → Bool
is_numeral part = not (is_empty part) && all_digits part

module _ {D : Type 0} (number : String → D) (exceeds : D → D → Bool) where
  abbrev pub three_parts : List String → Option (D × D × D)
  three_parts (p ∷ q ∷ r ∷ []) =
      if is_numeral p && is_numeral q && is_numeral r
      then some (number p, number q, number r)
      else none
  three_parts _ = none

  unfoldable pub parse_version_parts : String → Option (D × D × D)
  unfolding normalized split all_digits
  parse_version_parts version = three_parts (split b'.' (normalized version))

  -- The loop over the three parts.
  unfoldable pub is_ahead : D × D × D → D × D × D → Bool
  is_ahead (a, b, c) (x, y, z) =
      if exceeds a x
      then true
      else if exceeds x a
      then false
      else if exceeds b y
      then true
      else if exceeds y b
      then false
      else if exceeds c z
      then true
      else false

  abbrev pub compared : String → String → Option (D × D × D) → Option (D × D × D) → Bool
  compared latest current (some a) (some b) = is_ahead a b
  compared latest current _ _ = not (str_eq (normalized latest) (normalized current))

  unfoldable pub is_panel_update_available : String → String → Bool
  unfolding parse_version_parts is_ahead
  is_panel_update_available latest current =
      if is_empty latest || is_empty current
      then false
      else compared latest current (parse_version_parts latest) (parse_version_parts current)
