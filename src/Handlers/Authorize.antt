-- ===== src/Handlers/Authorize.antt =====
-- handleAuthorize of internal/handlers/handlers.go: the authorization endpoint.
pub mod Consent
pub mod Liveness
pub mod Reads
use Prim.Native.String
use fake_auth.Base.{
  ℕ, String, Bool, true, false, not, ◌&&◌, ◌||◌, Option, none, some, List, [], ◌∷◌, ◌++◌, ◌==◌,
  if◌then◌else◌,
}
use fake_auth.Text.{contains, or_text}
use fake_auth.Clients.{Registry, validate_redirect_uri, validate_scope}
use fake_auth.Web.{Request, query_value}
use fake_auth.Database
use fake_auth.Database.{Fetched, found, missing, broken, get_by_id}
use fake_auth.Grants
use fake_auth.Sessions
use fake_auth.Sessions.{Session, get_session}
use fake_auth.Handlers.{
  Url, Env, Draws, Config, counted, State, Response, unchanged, Answer, answer, found_at, engine_of,
  described, report,
}
use fake_auth.Handlers.SignIn.{
  Parameters, password_holder, open_session, offer, with_code, query_with, url_with, login_url,
}
use fake_auth.Handlers.Implicit.{handle_implicit_authorize}

unfoldable pub authorize_parameters : Request → Parameters
unfolding query_value or_text
authorize_parameters r = record {
  response_type = query_value r "response_type";
  client_id = query_value r "client_id";
  redirect_uri = query_value r "redirect_uri";
  scope = query_value r "scope";
  state = query_value r "state";
  username = query_value r "username";
  password = query_value r "password";
  prompt = query_value r "prompt";
  login_hint = query_value r "login_hint";
  nonce = query_value r "nonce";
  audience = query_value r "audience";
  code_challenge = query_value r "code_challenge";
  code_challenge_method = or_text (query_value r "code_challenge_method") "S256";
}

-- A redirect with an error in its query.
error_redirect : Env → Url → Parameters → String → String → Response
unfolding query_with url_with
error_redirect env url p error description = found_at (
    url_with env url
      (query_with env url (("error", error) ∷ ("error_description", description) ∷ []) p.state))

-- The redirect to the login page.
to_login : Config → Env → Parameters → Response
unfolding login_url
to_login cfg env p =
    let esc = env.library.query_escape in
    found_at (
      login_url cfg env p.client_id p.redirect_uri p.scope (
        (if p.state == "" then [] else "&state=" ∷ esc p.state ∷ [])
        ++ (if p.login_hint == "" then [] else "&login_hint=" ∷ esc p.login_hint ∷ [])
        ++ (if p.audience == "" then [] else "&audience=" ∷ esc p.audience ∷ [])
        ++ (if p.code_challenge == ""
            then []
            else "&code_challenge="
              ∷ esc p.code_challenge
              ∷ "&code_challenge_method="
              ∷ esc p.code_challenge_method
              ∷ [])
        ++ (if p.nonce == "" then [] else "&nonce=" ∷ esc p.nonce ∷ [])))

-- The code flow, with the user that the credentials yield.
with_credentials :
    Env → Draws → State → Grants.Store → Url → Parameters → Option Database.User → State × Answer
unfolding error_redirect open_session offer with_code
with_credentials env draws s g url p none = (
  report (counted "auth_requests" ("access_denied" ∷ [])) s,
  answer (error_redirect env url p "access_denied" "invalid_credentials"),
)
with_credentials env draws s g url p (some u) =
    let s1 = report (counted "auth_requests" ("success" ∷ [])) s in
    let (kept, cookie) = open_session draws u s.session_store in
    (
      record s1 { session_store = kept; grant_store = some (offer draws p u g) },
      record { response = with_code env draws url p; cookie = cookie },
    )

login_page : Config → Env → State → Parameters → State × Answer
unfolding to_login
login_page cfg env s p =
    (report (counted "auth_requests" ("redirect_to_login" ∷ [])) s, answer (to_login cfg env p))

-- The user of a live session, and the grant store.
for_user :
    Config
    → Env
    → Draws
    → State
    → Url
    → Parameters
    → Fetched Database.User
    → Option Grants.Store
    → State × Answer
unfolding login_page offer with_code
for_user cfg env draws s url p missing o = login_page cfg env s p
for_user cfg env draws s url p (broken e) o = login_page cfg env s p
for_user cfg env draws s url p (found u) none = login_page cfg env s p
for_user cfg env draws s url p (found u) (some g) = (
  record (report (counted "auth_requests" ("success" ∷ [])) s) {
    grant_store = some (offer draws p u g);
  },
  answer (with_code env draws url p),
)

for_session :
    Config
    → Env
    → Draws
    → State
    → Url
    → Parameters
    → Sessions.Store × Option Session
    → State × Answer
unfolding login_page for_user
for_session cfg env draws s url p (ss, none) =
    login_page cfg env (record s { session_store = some ss }) p
for_session cfg env draws s url p (ss, some x) =
    for_user cfg env draws (record s { session_store = some ss }) url p
      (get_by_id (engine_of env draws 0) env.codec s.db x.user_id) s.grant_store

-- Without credentials: the session of the cookie, or the login page.
by_session :
    Config
    → Env
    → Draws
    → State
    → Url
    → Parameters
    → Option Sessions.Store
    → Option String
    → State × Answer
unfolding login_page for_session
by_session cfg env draws s url p none cookie = login_page cfg env s p
by_session cfg env draws s url p (some ss) none = login_page cfg env s p
by_session cfg env draws s url p (some ss) (some c) =
    if p.username == "" && p.password == "" && not (c == "")
    then for_session cfg env draws s url p
        (get_session (draws.clock 4) (draws.clock 5) (draws.clock 6) c ss)
    else login_page cfg env s p

-- With credentials.
by_password : Env → Draws → State → Url → Parameters → Option Grants.Store → State × Answer
unfolding with_credentials
by_password env draws s url p none =
    (s, answer (described 500 "server_error" "Authorization code flow not configured"))
by_password env draws s url p (some g) =
    with_credentials env draws s g url p (password_holder env draws s.db p.username p.password)

-- The code flow.
code_flow : Config → Env → Draws → State → Url → Parameters → Option String → State × Answer
unfolding by_password error_redirect by_session
code_flow cfg env draws s url p cookie =
    if not (p.username == "") && not (p.password == "")
    then by_password env draws s url p s.grant_store
    else if p.prompt == "none" && p.username == "" && p.password == ""
    then (
      report (counted "auth_requests" ("login_required" ∷ [])) s,
      answer (error_redirect env url p "login_required" "User must be authenticated"),
    )
    else by_session cfg env draws s url p s.session_store cookie

-- The flow that the response type asks for, at the parsed redirect URI.
flow : Config → Env → Draws → State → Parameters → Option String → Option Url → State × Answer
unfolding code_flow
flow cfg env draws s p cookie none =
    (s, answer (described 400 "invalid_request" "Invalid redirect_uri"))
flow cfg env draws s p cookie (some url) =
    if p.response_type == "token"
      || p.response_type == "id_token"
      || contains p.response_type "token"
      || contains p.response_type "id_token"
    then (s, answer (handle_implicit_authorize cfg env draws s url p))
    else if not (p.response_type == "code")
    then (
      s,
      answer (
          described 400 "unsupported_response_type"
            "Only response_type=code, token, id_token are supported"),
    )
    else code_flow cfg env draws s url p cookie

-- h.ClientRegistry == nil, or what it says
unfoldable pub redirect_ok : Option Registry → Parameters → Bool
redirect_ok none p = true
redirect_ok (some r) p = validate_redirect_uri r p.client_id p.redirect_uri

unfoldable pub scope_ok : Env → Option Registry → Parameters → Bool
scope_ok env none p = true
scope_ok env (some r) p = validate_scope env.library.space r p.client_id p.scope

unfoldable pub with_defaults : Parameters → Parameters
unfolding or_text
with_defaults p = record p {
  client_id = or_text p.client_id "e2e-test";
  scope = or_text p.scope "openid";
}

unfoldable pub authorize :
    Config → Env → Draws → State → Parameters → Option String → State × Answer
unfolding redirect_ok scope_ok flow
authorize cfg env draws s p cookie =
    let q = with_defaults p in
    if p.redirect_uri == ""
    then (s, answer (described 400 "invalid_request" "redirect_uri is required"))
    else if not (redirect_ok cfg.client_registry p)
    then (s, answer (described 400 "invalid_request" "redirect_uri not allowed for this client"))
    else if not (scope_ok env cfg.client_registry q)
    then (s, answer (described 400 "invalid_scope" "requested scope not allowed"))
    else flow cfg env draws s q cookie (env.parse_url p.redirect_uri)

unfoldable pub handle_authorize : Config → Env → Draws → State → Request → State × Answer
handle_authorize cfg env draws s r = authorize cfg env draws s (authorize_parameters r) r.cookie
