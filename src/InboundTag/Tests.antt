-- ===== src/InboundTag/Tests.antt =====
-- The tags of concrete inbounds.
use x_ui_glass.Shared.{ℕ, ◌≡◌, refl, true, ◌||◌, ◌↔◌, ◌⊎◌, String, some, none, ◌+++◌}
use x_ui_glass.Json.{str, Fields, field, end}
use x_ui_glass.InboundTag.{
  inbound_transports, InboundTagInput, compose_inbound_tag, is_auto_inbound_tag,
}
use x_ui_glass.InboundTag.Auto.{IsNumber, is_auto_inbound_tag_iff, inbound_transports_some}

abbrev listed : Fields ℕ
listed = field "network" (str "tcp, udp") end

abbrev input : InboundTagInput ℕ
input = record {
  port = some 8443;
  node_id = some 3;
  protocol = "shadowsocks";
  stream_settings = none;
  settings = some listed;
}

tag_runs : compose_inbound_tag input ≡ "n3-in-8443-tcpudp"
unfolding compose_inbound_tag
tag_runs = refl

numbered_runs : is_auto_inbound_tag "n3-in-8443-tcpudp-2" input ≡ true
unfolding is_auto_inbound_tag
numbered_runs = refl

abbrev second_tag : String
second_tag = "n3-in-8443-tcpudp-2"

is_auto_inbound_tag_iff_example : (is_auto_inbound_tag second_tag input ≡ true) ↔ (
    (second_tag ≡ "")
    ⊎ ((second_tag ≡ compose_inbound_tag input)
        ⊎ ((s : String) × (second_tag ≡ (compose_inbound_tag input +++ "-") +++ s) × IsNumber s)))
is_auto_inbound_tag_iff_example = is_auto_inbound_tag_iff second_tag input

inbound_transports_some_example :
    ((inbound_transports "shadowsocks" none (some listed)).on_tcp
      || (inbound_transports "shadowsocks" none (some listed)).on_udp)
    ≡ true
inbound_transports_some_example = inbound_transports_some "shadowsocks" none (some listed)
