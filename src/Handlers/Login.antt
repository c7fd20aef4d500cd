-- ===== src/Handlers/Login.antt =====
-- handleLogin and handleUniversalLogin of internal/handlers/handlers.go: the login page.
pub mod Proof
pub mod Reads
use fake_auth.Base.{
  String, Bool, true, false, not, ◌&&◌, ◌||◌, Option, none, some, List, [], ◌∷◌, or_else, ◌==◌,
  if◌then◌else◌,
}
use fake_auth.Text.{contains, or_text, concat}
use fake_auth.Json.{str}
use fake_auth.Web.{Request, get_param, form_value}
use fake_auth.Audit.{log_login}
use fake_auth.Database
use fake_auth.Grants
use fake_auth.Handlers.{
  Url, Env, Draws, Config, counted, logged, State, Response, unchanged, Answer, answer, plain_text,
  page, report,
}
use fake_auth.Handlers.SignIn.{
  Parameters, password_holder, open_session, offer, with_code, with_tokens,
}

-- The parameters, with the defaults of the scope and of the challenge's method.
unfoldable pub login_parameters : Request → Parameters
unfolding get_param form_value or_text
login_parameters r = record {
  response_type = get_param r "response_type";
  client_id = get_param r "client_id";
  redirect_uri = get_param r "redirect_uri";
  scope = or_text (get_param r "scope") "openid";
  state = get_param r "state";
  username = form_value r "username";
  password = form_value r "password";
  prompt = "";
  login_hint = get_param r "login_hint";
  nonce = get_param r "nonce";
  audience = get_param r "audience";
  code_challenge = get_param r "code_challenge";
  code_challenge_method = or_text (get_param r "code_challenge_method") "S256";
}

-- wantToken and wantIDToken
unfoldable pub wants_token : String → Bool
wants_token response_type = response_type == "token" || contains response_type "token"

unfoldable pub wants_id_token : String → Bool
wants_id_token response_type = response_type == "id_token" || contains response_type "id_token"

with_grant :
    Env → Draws → State → Url → Parameters → Database.User → Option Grants.Store → State × Response
unfolding offer with_code
with_grant env draws s url p u none = (s, plain_text 500 "Authorization code flow not configured")
with_grant env draws s url p u (some g) =
    (record s { grant_store = some (offer draws p u g) }, with_code env draws url p)

-- Tokens in the fragment, or a code.
deliver : Config → Env → Draws → State → Url → Parameters → Database.User → State × Response
unfolding wants_token wants_id_token with_tokens with_grant
deliver cfg env draws s url p u =
    let token = wants_token p.response_type in
    let id_token = wants_id_token p.response_type in
    if token || id_token
    then (
      s,
      or_else (with_tokens cfg env draws url p u token id_token) (plain_text 500 "server error"),
    )
    else with_grant env draws s url p u s.grant_store

-- The credentials were checked. A redirect URI that cannot be parsed leaves a nil URL, whose use
-- is a panic: net/http drops the connection, and what was done so far stays.
signed_in : Config → Env → Draws → State → Parameters → Option Database.User → State × Option Answer
unfolding deliver open_session
signed_in cfg env draws s p none = (
  report
      (logged (
        log_login (draws.clock 9) "" p.username p.client_id false
          (some (("reason", str "invalid_credentials") ∷ []))))
      (report (counted "login_attempts" ("failed" ∷ [])) s),
  some (answer (plain_text 401 "Invalid credentials")),
)
signed_in cfg env draws s p (some u) =
    let s1 =
      report (logged (log_login (draws.clock 9) u.id u.email p.client_id true none))
        (report (counted "login_attempts" ("success" ∷ [])) s) in
    let (kept, cookie) = open_session draws u s.session_store in
    let s2 = record s1 { session_store = kept } in
    elim (env.parse_url p.redirect_uri) [
      | none ↦ (s2, none)
      | some url ↦
          let (s3, r) = deliver cfg env draws s2 url p u in
          (s3, some (record { response = r; cookie = cookie }))
    ]

unfoldable pub post_login : Config → Env → Draws → State → Parameters → State × Option Answer
unfolding signed_in
post_login cfg env draws s p =
    if p.username == "" || p.password == ""
    then (s, some (answer (plain_text 400 "username and password required")))
    else signed_in cfg env draws s p (password_holder env draws s.db p.username p.password)

hidden : Env → String → String → String
unfolding concat
hidden env name value = concat (
    "<input type=\"hidden\" name=\""
    ∷ name
    ∷ "\" value=\""
    ∷ env.library.html_escape value
    ∷ "\">\n"
    ∷ [])

login_form : Env → Parameters → String
unfolding hidden concat
login_form env p = concat (
    "<!DOCTYPE html><html><head><title>Login</title></head><body>\n<form method=\"post\" action=\"/login\">\n"
    ∷ hidden env "client_id" p.client_id
    ∷ hidden env "redirect_uri" p.redirect_uri
    ∷ hidden env "scope" p.scope
    ∷ hidden env "state" p.state
    ∷ hidden env "response_type" p.response_type
    ∷ hidden env "nonce" p.nonce
    ∷ hidden env "audience" p.audience
    ∷ hidden env "code_challenge" p.code_challenge
    ∷ hidden env "code_challenge_method" p.code_challenge_method
    ∷ "<label>Email: <input type=\"text\" name=\"username\" value=\""
    ∷ env.library.html_escape p.login_hint
    ∷ "\"></label><br>\n<label>Password: <input type=\"password\" name=\"password\"></label><br>\n<button type=\"submit\">Log in</button>\n</form></body></html>"
    ∷ [])

-- `none` is a panic.
unfoldable pub handle_login : Config → Env → Draws → State → Request → State × Option Answer
unfolding login_form
handle_login cfg env draws s r =
    let p = login_parameters r in
    if p.redirect_uri == ""
    then (s, some (answer (plain_text 400 "redirect_uri required")))
    else if r.method == "POST"
    then post_login cfg env draws s p
    else (s, some (answer (page 200 (login_form env p))))

unfoldable pub handle_universal_login :
    Config → Env → Draws → State → Request → State × Option Answer
handle_universal_login cfg env draws s r = handle_login cfg env draws s r
