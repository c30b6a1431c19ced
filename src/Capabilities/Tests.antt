-- ===== src/Capabilities/Tests.antt =====
-- The capabilities of concrete inbounds.
use x_ui_glass.Shared.{◌≡◌, refl, true, false, ◌↔◌, some, none, [], ◌∷◌}
use x_ui_glass.Capabilities.{
  Slice, can_enable_tls, can_enable_stream, can_enable_reality, can_enable_vision_seed, vision_flow,
  is_ss_multi_user, is_ss2022, ss_blake3_chacha20,
}
use x_ui_glass.Capabilities.Rules.{
  can_enable_reality-can_enable_tls, OffersVisionSeed, can_enable_vision_seed_iff,
  is_ss_multi_user-is_ss2022,
}

abbrev vision : Slice
vision = record {
  protocol = "vless";
  stream = some (record { network = some "tcp"; security = some "reality" });
  method = none;
  clients = some (some vision_flow ∷ []);
}

can_enable_reality-can_enable_tls_example :
    (can_enable_tls vision ≡ true) × (can_enable_stream "vless" ≡ true)
unfolding can_enable_reality
can_enable_reality-can_enable_tls_example = can_enable_reality-can_enable_tls vision refl

can_enable_vision_seed_iff_example :
    (can_enable_vision_seed vision ≡ true) ↔ OffersVisionSeed vision
can_enable_vision_seed_iff_example = can_enable_vision_seed_iff vision

-- No client has the flow.
no_seed : can_enable_vision_seed (record vision { clients = some (none ∷ some "" ∷ []) }) ≡ false
unfolding can_enable_vision_seed
no_seed = refl

abbrev single_user : Slice
single_user = record {
  protocol = "shadowsocks";
  stream = none;
  method = some ss_blake3_chacha20;
  clients = none;
}

single_user_method : is_ss2022 single_user ≡ true
unfolding is_ss_multi_user
single_user_method = is_ss_multi_user-is_ss2022 single_user refl
