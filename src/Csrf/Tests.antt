-- ===== src/Csrf/Tests.antt =====
-- Requests to a server that refuses them, on a page with a token.
use x_ui_glass.Shared.{
  any, ℕ, ◌≡◌, ◌≢◌, ◌≤◌, refl, false, none, some, [], ◌∷◌, List, if◌then◌else◌, length, arith,
  includes, All, to_upper,
}
use x_ui_glass.Json.{undefined}
use x_ui_glass.Coerce.Sample.{sample_web}
use x_ui_glass.Csrf.{Page, Config, text, Reply, refused, setup_axios, read_meta_token}
use x_ui_glass.Csrf.Requests.{exchange, exchange_ends, unfinished}
use x_ui_glass.Csrf.Tokens.{session_after, heard_in, is_over, redirected_once}
use x_ui_glass.Csrf.PageToken.{is_refusal, sent_token-page}

abbrev page : Page ℕ
page = record {
  web = sample_web;
  meta_content = some "m";
  base_path = none;
  token_answer = λ url n. none;
  qs_stringify = λ b. "a=1";
  qs_parse = λ s. undefined;
}

abbrev post : Config ℕ
post = record {
  method = "post";
  content_type = "";
  body = text "a=1";
  token = none;
  csrf_retried = false;
}

abbrev refusing : ℕ → Reply
refusing i = refused (some 403)

abbrev expired : ℕ → Reply
expired i = refused (some 401)

abbrev expiring : List (Config ℕ × (ℕ → Reply))
expiring = (post, expired) ∷ (post, expired) ∷ []

exchange_ends_example :
    (exchange page 2 refusing (setup_axios page) post).settled ≢ unfinished
    × (length (exchange page 2 refusing (setup_axios page) post).sent ≤ 2)
exchange_ends_example = exchange_ends page 2 refusing (setup_axios page) post (omega arith)

redirected_once_example :
    (session_after page 2 expiring (setup_axios page)).redirects
    ≡ (if any is_over (heard_in page 2 expiring (setup_axios page)) then 1 else 0)
redirected_once_example = redirected_once page 2 expiring

heard_twice :
    heard_in page 2 expiring (setup_axios page) ≡ refused (some 401) ∷ refused (some 401) ∷ []
unfolding heard_in exchange setup_axios
heard_twice = refl

left_once : (session_after page 2 expiring (setup_axios page)).redirects ≡ 1
unfolding session_after exchange setup_axios
left_once = refl

sent_token-page_example :
    (length (exchange page 2 refusing (setup_axios page) post).sent
      ≡ (if is_refusal (refusing 0) then 2 else 1))
    × All
        (λ (c : Config ℕ). c.token ≡ some "m")
        (exchange page 2 refusing (setup_axios page) post).sent
    × ((exchange page 2 refusing (setup_axios page) post).session.fetches ≡ 0)
unfolding includes read_meta_token to_upper
sent_token-page_example = sent_token-page page "m" refl 0 refusing post refl refl

-- The refused request is sent twice, and fails.
refused_twice : length (exchange page 2 refusing (setup_axios page) post).sent ≡ 2
unfolding exchange setup_axios
refused_twice = refl
