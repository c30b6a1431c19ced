-- ===== src/Csrf.antt =====
-- frontend/src/api/axios-init.ts: the token that requests carry against forgery, and the two
-- interceptors: the one that a request passes on its way out, and the one that its reply passes.
pub mod Requests
pub mod Tokens
pub mod PageToken
mod Tests
use x_ui_glass.Shared.{
  ℕ, String, Bool, true, false, not, ◌&&◌, ◌||◌, Option, none, some, List, [], ◌∷◌, if◌then◌else◌,
  is_empty, or_text, str_eq, is_some, includes, to_upper, to_lower, after, maybe, ◌+++◌, ◌+◌, ◌==◌,
  ◌>>=◌, or_else, zero, suc, ltb,
}
use Prim.Native.Char.{code}
use x_ui_glass.Json.{Value, undefined, null, str, obj, arr, prop}
use x_ui_glass.Platform.{Web, nonempty, is_truthy, properties}

abbrev pub safe_methods : List String
safe_methods = "GET" ∷ "HEAD" ∷ "OPTIONS" ∷ "TRACE" ∷ []

-- `SAFE_METHODS.has((config.method || 'get').toUpperCase())`
abbrev pub is_safe : String → Bool
is_safe method = includes safe_methods (to_upper (or_text method "get"))

-- `s.replace(/\/$/, '')`
unfoldable pub without_slash : String → String
without_slash String.[] = ""
without_slash (String.◌∷◌ c String.[]) = if code c == b'/' then "" else String.◌∷◌ c String.[]
without_slash (String.◌∷◌ c s) = String.◌∷◌ c (without_slash s)

-- The module's variables, the number of times that the token was asked of the server, and how often
-- the page was left.
pub record Session : Type 0 where
  pub csrf_token : Option String
  pub session_expired : Bool
  pub fetches : ℕ
  pub redirects : ℕ

-- The body of a request: a form with files, a text, or what is still to be written as one.
pub data Body (N : Type 0) : Type 0 where
  form : Body N
  text : String → Body N
  value : Value N → Body N

-- `content_type` is the type that the request declares; it is empty where it declares none.
pub record Config (N : Type 0) : Type 0 where
  pub method : String
  pub content_type : String
  pub body : Body N
  pub token : Option String
  pub csrf_retried : Bool

-- What the server answers: a status that counts as an error, if one was received.
pub data Reply : Type 0 where
  accepted : Reply
  refused : Option ℕ → Reply

-- What becomes of a request: its promise is fulfilled or rejected, stays open, or it is sent again.
pub data Outcome (N : Type 0) : Type 0 where
  resolved : Outcome N
  rejected : Outcome N
  open_ended : Outcome N
  sent_again : Config N → Outcome N

-- What the program takes from the page and from its libraries: the content of the tag
-- `csrf-token`, the base path, the answers to the requests for a token (`none` where the request
-- or its JSON throws), and the two directions of a query string.
pub record Page (N : Type 0) : Type 0 where
  pub web : Web N
  pub meta_content : Option String
  pub base_path : Option String
  pub token_answer : String → ℕ → Option (Bool × Value N)
  pub qs_stringify : Body N → String
  pub qs_parse : String → Value N

-- `status === n`
abbrev pub has_status : Option ℕ → ℕ → Bool
has_status none n = false
has_status (some m) n = m == n

module _ {N : Type 0} (page : Page N) where
  open page use {web}

  -- `readMetaToken`
  unfoldable pub read_meta_token : Option String
  read_meta_token = nonempty page.meta_content

  unfoldable pub csrf_url : String
  unfolding without_slash
  csrf_url =
      let base = or_else page.base_path "" in
      if not (is_empty base) && not (str_eq base "/")
      then without_slash base +++ "/csrf-token"
      else "/csrf-token"

  -- The token in an answer: `json?.success && typeof json.obj === 'string'`
  abbrev pub token_text : Value N → Option String
  token_text (str s) = some s
  token_text v = none

  abbrev pub answered : Bool × Value N → Option String
  answered (ok, json) =
      maybe (properties json) none
        (λ fs. if ok && is_truthy web (prop fs "success") then token_text (prop fs "obj") else none)

  unfoldable pub fetch_csrf_token : ℕ → Option String
  unfolding csrf_url properties is_truthy prop
  fetch_csrf_token n = page.token_answer csrf_url n >>= answered

  -- `ensureCsrfToken`: the token that there is, that of the page, or one from the server.
  abbrev ask_server : Session → Session × Option String
  unfolding fetch_csrf_token
  ask_server s =
      let token = nonempty (fetch_csrf_token s.fetches) in
      (record s { csrf_token = token; fetches = s.fetches + 1 }, token)

  abbrev from_page : Option String → Session → Session × Option String
  unfolding fetch_csrf_token
  from_page (some meta) s = (record s { csrf_token = some meta }, some meta)
  from_page none s = ask_server s

  abbrev from_session : Option String → Session → Session × Option String
  unfolding fetch_csrf_token read_meta_token
  from_session (some token) s = (s, some token)
  from_session none s = from_page read_meta_token s

  unfoldable pub ensure_csrf_token : Session → Session × Option String
  unfolding fetch_csrf_token read_meta_token
  ensure_csrf_token s = from_session (nonempty s.csrf_token) s

  -- `setupAxios`: the state at the start.
  unfoldable pub setup_axios : Session
  unfolding read_meta_token
  setup_axios = record {
    csrf_token = read_meta_token;
    session_expired = false;
    fetches = 0;
    redirects = 0;
  }

  abbrev pub is_json : String → Bool
  unfolding to_lower after
  is_json content_type = is_some (after "application/json" (to_lower content_type))

  -- `undefined` is not written, and a text stays as it is.
  abbrev write_json : Body N → Body N
  write_json (value undefined) = value undefined
  write_json (value (str s)) = value (str s)
  write_json (value v) = text (web.stringify v)
  write_json b = b

  unfoldable pub encode_body : String → Body N → Body N
  unfolding to_lower after
  encode_body content_type form = form
  encode_body content_type b =
      if is_json content_type then write_json b else text (page.qs_stringify b)

  -- A form with files is sent under its own type.
  abbrev type_of : Body N → String → String
  type_of form content_type = "multipart/form-data"
  type_of b content_type = content_type

  -- The interceptor of requests: a request that may change something gets the token.
  unfoldable pub on_request : Session → Config N → Session × Config N
  unfolding ensure_csrf_token encode_body includes to_upper
  on_request s cfg =
      let encoded : Config N = record cfg {
        content_type = type_of cfg.body cfg.content_type;
        body = encode_body cfg.content_type cfg.body;
      } in
      let (s', token) = ensure_csrf_token s in
      if is_safe cfg.method
      then (s, encoded)
      else (s', record encoded { token = maybe token cfg.token (λ t. some t) })

  unfoldable pub decode_body : String → Body N → Body N
  unfolding to_lower after
  decode_body content_type (text s) =
      if is_json content_type
      then maybe (web.parse_json s) (text s) (λ v. value v)
      else value (page.qs_parse s)
  decode_body content_type b = b

  -- A reply 401: the page is left once, and the promise stays open.
  abbrev pub expire : Session → Session
  expire s =
      if s.session_expired
      then s
      else record s { session_expired = true; redirects = s.redirects + 1 }

  -- A reply 403: once for each request the token is dropped and asked for again.
  abbrev retry : Session → Config N → Session × Outcome N
  unfolding ensure_csrf_token decode_body
  retry s cfg =
      let (s', token) = ensure_csrf_token (record s { csrf_token = none }) in
      (
        s',
        maybe token rejected (λ t. sent_again (record cfg {
          token = some t;
          csrf_retried = true;
          body = decode_body cfg.content_type cfg.body;
        })),
      )

  -- The interceptor of replies.
  unfoldable pub on_reply : Session → Config N → Reply → Session × Outcome N
  unfolding ensure_csrf_token decode_body
  on_reply s cfg accepted = (s, resolved)
  on_reply s cfg (refused status) =
      if has_status status 401
      then (expire s, open_ended)
      else if has_status status 403 && not cfg.csrf_retried
      then retry s cfg
      else (s, rejected)
