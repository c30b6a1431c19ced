-- ===== src/PanelVersion/Tests.antt =====
-- Updates between concrete versions; few digits are the natural number that they write.
use Prim.Native.Char.{code}
use x_ui_glass.Shared.{ℕ, ◌+◌, ◌-◌, ◌*◌, String, ◌≡◌, refl, Bool, true, false, some, ltb, arith}
use x_ui_glass.PanelVersion.{is_panel_update_available, parse_version_parts}
use x_ui_glass.PanelVersion.Order.{IsOrder, update_chain}

value : ℕ → String → ℕ
value n String.[] = n
value n (String.◌∷◌ c s) = value (n * 10 + (code c - 48)) s

abbrev greater : ℕ → ℕ → Bool
greater a b = ltb b a

greater-IsOrder : IsOrder greater
greater-IsOrder = record {
  irreflexive = λ a. ground arith;
  transitive = λ a b c h k. grind arith;
  connected = λ a b h k. grind arith;
}

abbrev update : String → String → Bool
update = is_panel_update_available (value 0) greater

abbrev old : String
old = "2.9.9"

abbrev middle : String
middle = " v2.10.0"

abbrev new : String
new = "v3.0.0"

parsed_old : parse_version_parts (value 0) greater old ≡ some (2, 9, 9)
unfolding parse_version_parts value
parsed_old = refl

parsed_middle : parse_version_parts (value 0) greater middle ≡ some (2, 10, 0)
unfolding parse_version_parts value
parsed_middle = refl

parsed_new : parse_version_parts (value 0) greater new ≡ some (3, 0, 0)
unfolding parse_version_parts value
parsed_new = refl

new_to_middle : update new middle ≡ true
unfolding is_panel_update_available value
new_to_middle = refl

middle_to_old : update middle old ≡ true
unfolding is_panel_update_available value
middle_to_old = refl

update_chain_example : (update new old ≡ true) × (update old new ≡ false)
update_chain_example =
    update_chain (value 0) greater greater-IsOrder new middle old (3, 0, 0) (2, 10, 0) (2, 9, 9)
      parsed_new parsed_middle parsed_old new_to_middle middle_to_old

unnumbered : update "nightly-2" "nightly-1" ≡ true
unfolding is_panel_update_available value
unnumbered = refl

unknown : update "" "2.6.4" ≡ false
unfolding is_panel_update_available value
unknown = refl
