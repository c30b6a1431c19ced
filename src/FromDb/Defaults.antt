-- ===== src/FromDb/Defaults.antt =====
-- Which properties of a stream are filled in, and with what.
use x_ui_glass.Shared.{String, ◌≡◌, ◌⊎◌, true, false, Option, none, some, List, [], ◌∷◌, str_eq}
use x_ui_glass.Json.{Value, str, obj, end}
use x_ui_glass.FromDb.{Schema, Schemas, network_schema_for}

-- A network with the property that has its settings, and their schema.
pub record Network (N : Type 0) : Type 0 where
  pub name : String
  pub key : String
  pub schema : Schema N

module _ {N : Type 0} where
  abbrev network : String → String → Schema N → Network N
  network n k s = record { name = n; key = k; schema = s }

  abbrev pub networks : Schemas N → List (Network N)
  networks ss =
      network "tcp" "tcpSettings" ss.tcp
      ∷ network "kcp" "kcpSettings" ss.kcp
      ∷ network "ws" "wsSettings" ss.ws
      ∷ network "grpc" "grpcSettings" ss.grpc
      ∷ network "httpupgrade" "httpupgradeSettings" ss.http_upgrade
      ∷ network "xhttp" "xhttpSettings" ss.xhttp
      ∷ network "hysteria" "hysteriaSettings" ss.hysteria
      ∷ []

  -- A value that the schema gave; or the schema accepts not even an empty object, and the value is
  -- the one that was there.
  abbrev pub IsFilled : Schema N → Value N → Value N → Type 0
  IsFilled schema old new =
      ((v : Value N) × (schema v ≡ some new)) ⊎ ((schema (obj end) ≡ none) × (new ≡ old))

  -- A part that has no property of the name.
  abbrev Away : String → Option (String × Schema N) → Type 0
  Away j none = true ≡ true
  Away j (some (key, s)) = str_eq key j ≡ false

module _ {N : Type 0} (ss : Schemas N) (t : Network N) where
  record Named : Type 0 where
    found : network_schema_for ss (str t.name) ≡ some (t.key, t.schema)
    no_network : str_eq t.key "network" ≡ false
    no_security : str_eq t.key "security" ≡ false
    no_tls : str_eq "tlsSettings" t.key ≡ false
    no_reality : str_eq "realitySettings" t.key ≡ false
    security_other : str_eq "security" t.key ≡ false
    network_other : str_eq "network" t.key ≡ false
