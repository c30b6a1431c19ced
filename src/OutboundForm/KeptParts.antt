-- ===== src/OutboundForm/KeptParts.antt =====
-- The parts of settings that are written to the wire and read again: lists, optional texts, the
-- noises, the rules and the fragment of Freedom.
use x_ui_glass.Shared.{
  String, true, false, not, ◌||◌, ◌≡◌, refl, ◌⊎◌, some, List, [], ◌∷◌, map, if◌then◌else◌, is_empty,
  str_eq, includes, arith, Bool-cases, inl, inr, All, eq_iff,
}
use x_ui_glass.Json.{Value, undefined, items, of_items}
use x_ui_glass.Coerce.{
  Runtime, as_array, as_object, as_string-or_undefined, as_strings-or_undefined, as_string,
  as_string_or, text_or_undefined,
}
use x_ui_glass.OutboundForm.{
  Fragment, Noise, FinalRule, one_of, values_or_undefined, noise_to_wire, noise_from_wire,
  final_rule_to_wire, final_rule_from_wire, fragment_to_wire, fragment_from_wire, or_blocked,
  joined_text,
}
use x_ui_glass.OutboundForm.Ranges.{IsChoice}
use x_ui_glass.OutboundForm.Recover.{FragmentRecoverable, RuleRecoverable}

module _ (N : Type 0) where
  pub items-of_items : (vs : List (Value N)) → items (of_items vs) ≡ vs
  unfolding items of_items
  items-of_items [] = refl
  items-of_items (v ∷ vs) = λ i. v ∷ items-of_items vs i

  -- A list that is written as an array, or not at all where it is empty, is read.
  pub as_array-or_undefined : (vs : List (Value N)) → as_array (values_or_undefined vs) ≡ vs
  unfolding as_array
  as_array-or_undefined [] = refl
  as_array-or_undefined (v ∷ vs) = items-of_items (v ∷ vs)

  pub noises_kept : (ns : List Noise) → map (noise_from_wire {N = N}) (map noise_to_wire ns) ≡ ns
  unfolding noise_from_wire noise_to_wire
  noises_kept [] = refl
  noises_kept (n ∷ ns) = λ i. n ∷ noises_kept ns i

  joined_text-or_undefined : (s : String) → joined_text {N = N} (text_or_undefined s) ≡ s
  unfolding joined_text
  joined_text-or_undefined s = elim (Bool-cases (is_empty s)) [
    | inl e ↦ rw e (ground (arith, eq_iff s ""))
    | inr e ↦ rw e refl
  ]

  delay_kept :
      (action delay : String)
      → (action ≡ "block") ⊎ ((action ≡ "allow") × (delay ≡ ""))
      → as_string {N = N} (if str_eq action "block" then text_or_undefined delay else undefined)
        ≡ delay
  unfolding as_string_or
  delay_kept action delay (inl e) = rw e (as_string-or_undefined N delay)
  delay_kept action delay (inr h) = rw (h.0, h.1) refl

  action_kept :
      (action delay : String)
      → (action ≡ "block") ⊎ ((action ≡ "allow") × (delay ≡ ""))
      → (if str_eq action "allow" then "allow" else "block") ≡ action
  action_kept action delay (inl e) = rw e refl
  action_kept action delay (inr h) = rw (h.0) refl

  rule_kept :
      (r : FinalRule) → RuleRecoverable r → final_rule_from_wire {N = N} (final_rule_to_wire r) ≡ r
  unfolding final_rule_from_wire final_rule_to_wire
  rule_kept r h = λ i. record {
    action = action_kept r.action r.block_delay h i;
    network = joined_text-or_undefined r.network i;
    port = as_string-or_undefined N r.port i;
    ip = as_strings-or_undefined N r.ip i;
    block_delay = delay_kept r.action r.block_delay h i;
  }

  pub choice_kept :
      (rt : Runtime N) (allowed : List String) (s : String)
      → IsChoice rt allowed s
      → one_of allowed (as_string {N = N} (text_or_undefined s)) "" ≡ s
  unfolding includes
  choice_kept rt allowed s h = rw (as_string-or_undefined N s) (ground (arith, eq_iff "" s))

  -- Three texts of which one is not empty.
  fragment_given :
      (a b c d : String)
      → is_empty a ≡ false
      → (not (is_empty b) || not (is_empty c) || not (is_empty d)) ≡ true
      → fragment_from_wire {N = N} (
          as_object (
            fragment_to_wire
              (some (record { packets = a; length = b; interval = c; max_split = d }))))
        ≡ record { packets = a; length = b; interval = c; max_split = d }
  unfolding fragment_from_wire fragment_to_wire as_object
  fragment_given a b c d p h = rw (h, p) (ground (arith, eq_iff b "", eq_iff c "", eq_iff d ""))

  pub fragment_kept :
      (f : Fragment)
      → FragmentRecoverable f
      → fragment_from_wire {N = N} (as_object (fragment_to_wire (some f))) ≡ f
  unfolding fragment_from_wire fragment_to_wire as_object
  fragment_kept f (inl e) = rw e refl
  fragment_kept f (inr h) = fragment_given f.packets f.length f.interval f.max_split h.0 h.1

  pub rules_kept :
      (rs : List FinalRule)
      → All RuleRecoverable rs
      → map (final_rule_from_wire {N = N}) (map final_rule_to_wire rs) ≡ rs
  rules_kept [] h = refl
  rules_kept (r ∷ rs) h = λ i. rule_kept r h.0 i ∷ rules_kept rs h.1 i

  pub no_legacy_rules : (rs : List FinalRule) → or_blocked rs [] ≡ rs
  no_legacy_rules [] = refl
  no_legacy_rules (r ∷ rs) = refl
