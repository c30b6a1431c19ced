-- ===== src/OutboundForm/VlessWritten.antt =====
-- The settings of VLESS on the wire, property by property.
use x_ui_glass.Shared.{Bool, true, false, ◌≡◌, refl, if◌then◌else◌}
use x_ui_glass.Json.{undefined, str, num, arr, obj, Fields, prop, with_prop, end, field, of_items}
use x_ui_glass.Coerce.{}
use x_ui_glass.OutboundForm.{VlessForm, or_none}

module _ {N : Type 0} where
  -- What is written, by which parts of it are: a reverse proxy `r`, the Vision flow's two values.
  abbrev pub written : Bool → Bool → Bool → VlessForm N → Fields N → Fields N
  written a v p s r =
      let reverse : Fields N = if a then end else field "reverse" (obj r) end in
      let flat : Fields N = field "address" (str s.address) (
        field "port" (num s.port) (
          field "id" (str s.id) (
            field "flow" (str s.flow)
              (field "encryption" (str (or_none s.encryption)) reverse)))) in
      if v
      then with_prop "testseed" (arr (of_items s.testseed))
          (if p then with_prop "testpre" (num s.testpre) flat else flat)
      else flat

  pub record Written (a v p : Bool) (s : VlessForm N) (r : Fields N) (fs : Fields N) : Type 0 where
    pub vnext : prop fs "vnext" ≡ undefined
    pub address : prop fs "address" ≡ str s.address
    pub port : prop fs "port" ≡ num s.port
    pub id : prop fs "id" ≡ str s.id
    pub flow : prop fs "flow" ≡ str s.flow
    pub encryption : prop fs "encryption" ≡ str (or_none s.encryption)
    pub reverse : prop fs "reverse" ≡ (if a then undefined else obj r)
    pub testpre :
        prop fs "testpre" ≡ (if v then if p then num s.testpre else undefined else undefined)
    pub testseed : prop fs "testseed" ≡ (if v then arr (of_items s.testseed) else undefined)

  pub written_read :
      (a v p : Bool) (s : VlessForm N) (r : Fields N) → Written a v p s r (written a v p s r)
  unfolding prop with_prop of_items
  written_read true true true s r = record {
    vnext = refl;
    address = refl;
    port = refl;
    id = refl;
    flow = refl;
    encryption = refl;
    reverse = refl;
    testpre = refl;
    testseed = refl;
  }
  written_read true true false s r = record {
    vnext = refl;
    address = refl;
    port = refl;
    id = refl;
    flow = refl;
    encryption = refl;
    reverse = refl;
    testpre = refl;
    testseed = refl;
  }
  written_read true false true s r = record {
    vnext = refl;
    address = refl;
    port = refl;
    id = refl;
    flow = refl;
    encryption = refl;
    reverse = refl;
    testpre = refl;
    testseed = refl;
  }
  written_read true false false s r = record {
    vnext = refl;
    address = refl;
    port = refl;
    id = refl;
    flow = refl;
    encryption = refl;
    reverse = refl;
    testpre = refl;
    testseed = refl;
  }
  written_read false true true s r = record {
    vnext = refl;
    address = refl;
    port = refl;
    id = refl;
    flow = refl;
    encryption = refl;
    reverse = refl;
    testpre = refl;
    testseed = refl;
  }
  written_read false true false s r = record {
    vnext = refl;
    address = refl;
    port = refl;
    id = refl;
    flow = refl;
    encryption = refl;
    reverse = refl;
    testpre = refl;
    testseed = refl;
  }
  written_read false false true s r = record {
    vnext = refl;
    address = refl;
    port = refl;
    id = refl;
    flow = refl;
    encryption = refl;
    reverse = refl;
    testpre = refl;
    testseed = refl;
  }
  written_read false false false s r = record {
    vnext = refl;
    address = refl;
    port = refl;
    id = refl;
    flow = refl;
    encryption = refl;
    reverse = refl;
    testpre = refl;
    testseed = refl;
  }
