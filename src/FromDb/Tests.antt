-- ===== src/FromDb/Tests.antt =====
-- A stored inbound whose stream lacks its settings, with a schema of one property for each part.
use x_ui_glass.Shared.{ℕ, ◌≡◌, refl, none, some}
use x_ui_glass.Json.{Value, Fields, end, field, prop, with_prop, str, obj, null, undefined}
use x_ui_glass.Platform.{nullish}
use x_ui_glass.Coerce.Sample.{sample_web}
use x_ui_glass.FromDb.{Schema, Schemas, fill_stream_defaults, inbound_from_db}
use x_ui_glass.FromDb.Defaults.{Network}

-- An object with a `path`, which is `/` where there is none.
abbrev with_path : Value ℕ → Value ℕ
with_path p = obj (field "path" (nullish p (str "/")) end)

abbrev schema : Schema ℕ
schema (obj fs) = some (with_path (prop fs "path"))
schema _ = none

abbrev schemas : Schemas ℕ
schemas = record {
  tcp = schema;
  kcp = schema;
  ws = schema;
  grpc = schema;
  http_upgrade = schema;
  xhttp = schema;
  hysteria = schema;
  tls = schema;
  reality = schema;
  settings = λ protocol fs. none;
}

-- `{ network: "ws", wsSettings: null }`
abbrev stream : Fields ℕ
stream = field "network" (str "ws") (field "wsSettings" null end)

filled :
    fill_stream_defaults schemas stream
    ≡ field "network"
        (str "ws")
        (field "wsSettings" (obj (field "path" (str "/") end)) (field "security" (str "none") end))
unfolding fill_stream_defaults prop with_prop nullish
filled = refl

abbrev ws : Network ℕ
ws = record { name = "ws"; key = "wsSettings"; schema = schema }

-- A stream without a property is left without one.
left_empty :
    (inbound_from_db sample_web schemas (record {
      port = 443;
      listen = none;
      protocol = "vless";
      settings = null;
      stream_settings = str " ";
      sniffing = undefined;
      tag = none;
      remark = none;
      enable = none;
      expiry_time = none;
      up = none;
      down = none;
      total = none;
    })).stream_settings
    ≡ end
unfolding inbound_from_db
left_empty = refl
