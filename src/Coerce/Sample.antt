-- ===== src/Coerce/Sample.antt =====
-- A small platform over the natural numbers, on which the definitions run in tests.
use x_ui_glass.Shared.{ℕ, true, none, some, [], ◌∷◌, if◌then◌else◌, str_eq, not, ◌==◌}
use x_ui_glass.Shared.Numeral.{decimal}
use x_ui_glass.Json.{Value, num, str, obj, end}
use x_ui_glass.Platform.{Web, Url}
use x_ui_glass.Coerce.{Runtime}

abbrev pub sample_number : Value ℕ → ℕ
sample_number (num n) = n
sample_number (str s) = if str_eq s "8443" then 8443 else 0
sample_number v = 0

abbrev pub sample_url : Url
sample_url = record {
  protocol = "trojan:";
  username = "secret";
  hostname = "example.com";
  port = "8443";
  params = ("type", "ws") ∷ ("flow", "f") ∷ [];
  hash = "#name";
}

abbrev pub sample_web : Web ℕ
sample_web = record {
  number = λ n. n;
  number_of = sample_number;
  number_text = decimal;
  is_nonzero = λ n. not (n == 0);
  is_positive = λ n. not (n == 0);
  is_finite = λ n. true;
  parse_json = λ s. if str_eq s "{}" then some (obj end) else none;
  stringify = λ v. "{}";
  stringify_indented = λ v. "{}";
  parse_url = λ s.
      if str_eq s "trojan://link"
      then some sample_url
      else if str_eq s "vless://link"
      then some (record sample_url { protocol = "vless:" })
      else none;
  print_url = λ u. "trojan://link";
  set_username = λ s u. record u { username = s };
  set_hash = λ s u. record u { hash = s };
  encode_component = λ s. s;
  decode_component = λ s. some s;
  encode_base64 = λ s b. s;
  decode_base64 = λ s. some s;
  public_key_of = λ s. s;
}

abbrev pub sample_runtime : Runtime ℕ
sample_runtime = record { web = sample_web; nat_of = λ n. some n; text_of = λ v. "" }
