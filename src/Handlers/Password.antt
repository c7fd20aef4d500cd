-- ===== src/Handlers/Password.antt =====
-- handlePasswordGrant and handleClientCredentials of internal/handlers/handlers.go.
pub mod Credentials
use Prim.Native.String
use fake_auth.Base.{
  ℕ, ℤ, pos, String, Bool, true, false, not, ◌&&◌, ◌||◌, Option, none, some, List, [], ◌∷◌, or_else,
  ◌==◌, if◌then◌else◌,
}
use fake_auth.Text.{contains, or_text}
use fake_auth.Dict.{Dict, put}
use fake_auth.Json.{Value}
use fake_auth.Token.{IdTokenOptions, issue, issue_id_token}
use fake_auth.Database
use fake_auth.Database.{Fetched, found, missing, broken, get_by_email, verify_password}
use fake_auth.Grants
use fake_auth.Grants.{RefreshGrant, save_refresh_token}
use fake_auth.Audit.{log_token}
use fake_auth.Handlers.{
  Env, Draws, Config, counted, logged, State, Response, access_lifetime, id_lifetime, engine_of,
  send_json, error_json, described, report,
}
use fake_auth.Handlers.Issuing.{merge_claims, rule_user, shown_name, bearer, put_token}

-- The parameters of the grant.
pub record Login : Type 0 where
  pub username : String
  pub password : String
  pub client_id : String
  pub scope : String
  pub audience : String

abbrev pub wrong_password : Response
wrong_password = described 400 "invalid_grant" "Wrong email or password."

-- The audience asked for, or the default, which leaves nothing for the client's name to replace.
unfoldable pub audience_of : Login → String
unfolding or_text
audience_of l = or_text (or_text l.audience "https://api.example.com") l.client_id

unfoldable pub add_id_token :
    Config → Env → ℕ → Login → Database.User → String → Dict Value → Dict Value
unfolding put_token id_lifetime
add_id_token cfg env now l u session_id resp =
    let ru = rule_user cfg u l.client_id in
    let opts : IdTokenOptions = record {
      nonce = "";
      amr = "pwd" ∷ [];
      access_token = "";
      auth_code = "";
      session_id = session_id;
      custom_claims = or_else ru.id_token_claims [];
    } in
    if contains l.scope "openid"
    then put_token "id_token"
        (issue_id_token env.jwt cfg.issuer now u.id (audience_of l) l.client_id
          (pos (id_lifetime cfg)) l.scope ru.email (shown_name ru) "" (some opts))
        resp
    else resp

-- A refresh token, if the scope asks for one and there is a store.
unfoldable pub add_refresh :
    Draws
    → Option Grants.Store
    → Login
    → Database.User
    → String
    → Dict Value
    → Option Grants.Store × Dict Value
unfolding put_token
add_refresh draws none l u session_id resp = (none, resp)
add_refresh draws (some g) l u session_id resp =
    if contains l.scope "offline_access"
    then (let token = String.◌++◌ "rt_" (draws.uuid 1) in
        (
          some (
              save_refresh_token (draws.clock 2) (draws.clock 3) token
                (record {
                  user_id = u.id;
                  client_id = l.client_id;
                  scope = l.scope;
                  audience = "";
                  session_id = session_id;
                  expires_at = 0;
                })
                g),
          put_token "refresh_token" (some token) resp,
        ))
    else (some g, resp)

-- From the access token on.
issued : Config → Env → Draws → State → Login → Database.User → Option String → State × Response
unfolding add_id_token add_refresh bearer access_lifetime
issued cfg env draws s l u none =
    (report (counted "token_requests" ("password" ∷ "error" ∷ [])) s, error_json 500 "server_error")
issued cfg env draws s l u (some access_token) =
    let session_id = String.◌++◌ "sid_" (draws.uuid 0) in
    let s1 =
      report (logged (log_token (draws.clock 9) "password" u.id l.client_id true none))
        (report (counted "token_requests" ("password" ∷ "success" ∷ [])) s) in
    let plain = bearer (access_lifetime cfg) access_token in
    let named = add_id_token cfg env (draws.clock 1) l u session_id plain in
    let (kept, resp) = add_refresh draws s.grant_store l u session_id named in
    (record s1 { grant_store = kept }, send_json 200 resp)

password_tokens : Config → Env → Draws → State → Login → Fetched Database.User → State × Response
unfolding issued merge_claims access_lifetime
password_tokens cfg env draws s l missing = (s, wrong_password)
password_tokens cfg env draws s l (broken e) = (s, wrong_password)
password_tokens cfg env draws s l (found u) =
    if not (verify_password env.bcrypt u.password_hash l.password)
    then (s, wrong_password)
    else issued cfg env draws s l u (
        issue env.jwt cfg.issuer (draws.clock 0) u.id (audience_of l) l.client_id
          (pos (access_lifetime cfg))
          (merge_claims (rule_user cfg u l.client_id).access_token_claims
            cfg.extra_access_token_claims))

unfoldable pub handle_password_grant : Config → Env → Draws → State → Login → State × Response
unfolding password_tokens
handle_password_grant cfg env draws s l =
    if l.username == "" || l.password == ""
    then (s, wrong_password)
    else password_tokens cfg env draws s l
        (get_by_email (engine_of env draws 0) env.codec s.db l.username)

client_tokens : Config → State → Option String → State × Response
unfolding bearer access_lifetime
client_tokens cfg s none = (
  report (counted "token_requests" ("client_credentials" ∷ "error" ∷ [])) s,
  error_json 500 "server_error",
)
client_tokens cfg s (some token) = (
  report (counted "token_requests" ("client_credentials" ∷ "success" ∷ [])) s,
  send_json 200 (bearer (access_lifetime cfg) token),
)

unfoldable pub handle_client_credentials : Config → Env → Draws → State → String → State × Response
unfolding client_tokens access_lifetime
handle_client_credentials cfg env draws s client_id = client_tokens cfg s (
    issue env.jwt cfg.issuer (draws.clock 0) (String.◌++◌ "client|" client_id)
      "https://api.example.com" client_id (pos (access_lifetime cfg)) [])
