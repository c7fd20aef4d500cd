-- ===== src/Handlers/Refresh.antt =====
-- handleRefreshToken of internal/handlers/handlers.go: a refresh token for new tokens.
pub mod Rotation
use Prim.Native.String
use fake_auth.Base.{
  ℕ, ℤ, pos, String, Bool, true, not, ◌&&◌, Option, none, some, List, [], ◌∷◌, ◌==◌, if◌then◌else◌,
}
use fake_auth.Text.{contains, or_text}
use fake_auth.Dict.{Dict}
use fake_auth.Json.{Value}
use fake_auth.Token.{IdTokenOptions, issue, issue_id_token}
use fake_auth.Database
use fake_auth.Database.{Fetched, found, missing, broken, get_by_id}
use fake_auth.Grants
use fake_auth.Grants.{RefreshGrant, consume_refresh_token, save_refresh_token}
use fake_auth.Audit.{log_token}
use fake_auth.Handlers.{
  Env, Draws, Config, counted, logged, State, Response, access_lifetime, id_lifetime, engine_of,
  send_json, error_json, described, report,
}
use fake_auth.Handlers.Issuing.{merge_claims, bearer, put_token}

-- The grant's client, or the default where it is empty.
unfoldable pub audience_of : RefreshGrant → String
unfolding or_text
audience_of rg = or_text rg.client_id "https://api.example.com"

-- The e-mail address and the name of the user, empty where there is none.
abbrev shown : Fetched Database.User → String × String
shown (found u) = (u.email, u.display_name)
shown missing = ("", "")
shown (broken e) = ("", "")

unfoldable pub add_id_token :
    Config → Env → Draws → State → RefreshGrant → String → Dict Value → Dict Value
unfolding put_token id_lifetime
add_id_token cfg env draws s rg session_id resp =
    let (email, name) = shown (get_by_id (engine_of env draws 0) env.codec s.db rg.user_id) in
    let opts : IdTokenOptions = record {
      nonce = "";
      amr = "pwd" ∷ [];
      access_token = "";
      auth_code = "";
      session_id = session_id;
      custom_claims = [];
    } in
    if contains rg.scope "openid"
    then put_token "id_token"
        (issue_id_token env.jwt cfg.issuer (draws.clock 2) rg.user_id (audience_of rg) rg.client_id
          (pos (id_lifetime cfg)) rg.scope email name "" (some opts))
        resp
    else resp

-- Token rotation.
unfoldable pub rotate :
    Draws → Grants.Store → RefreshGrant → String → Dict Value → Grants.Store × Dict Value
unfolding put_token
rotate draws g rg session_id resp =
    if contains rg.scope "offline_access"
    then (let token = String.◌++◌ "rt_" (draws.uuid 1) in
        (
          save_refresh_token (draws.clock 3) (draws.clock 4) token
              (record {
                user_id = rg.user_id;
                client_id = rg.client_id;
                scope = rg.scope;
                audience = "";
                session_id = session_id;
                expires_at = 0;
              })
              g,
          put_token "refresh_token" (some token) resp,
        ))
    else (g, resp)

-- From the access token on.
refreshed :
    Config
    → Env
    → Draws
    → State
    → Grants.Store
    → RefreshGrant
    → String
    → Option String
    → State × Response
unfolding add_id_token rotate bearer access_lifetime
refreshed cfg env draws s g rg session_id none = (s, error_json 500 "server_error")
refreshed cfg env draws s g rg session_id (some access_token) =
    let plain = bearer (access_lifetime cfg) access_token in
    let named = add_id_token cfg env draws s rg session_id plain in
    let (kept, resp) = rotate draws g rg session_id named in
    let s1 =
      report (counted "token_requests" ("refresh_token" ∷ "success" ∷ []))
        (record s { grant_store = some kept }) in
    (
      report (logged (log_token (draws.clock 9) "refresh_token" rg.user_id rg.client_id true none))
          s1,
      send_json 200 resp,
    )

-- A consumed token.
accepted : Config → Env → Draws → State → Grants.Store → RefreshGrant → String → State × Response
unfolding refreshed merge_claims access_lifetime or_text
accepted cfg env draws s g rg client_id =
    if not (client_id == "") && not (rg.client_id == client_id)
    then (s, described 400 "invalid_grant" "Client ID mismatch")
    else refreshed cfg env draws s g rg (or_text rg.session_id (String.◌++◌ "sid_" (draws.uuid 0)))
        (issue env.jwt cfg.issuer (draws.clock 1) rg.user_id (audience_of rg) rg.client_id
          (pos (access_lifetime cfg)) (merge_claims none cfg.extra_access_token_claims))

unfoldable pub consumed :
    Config → Env → Draws → State → String → Grants.Store × Option RefreshGrant → State × Response
unfolding accepted
consumed cfg env draws s client_id (g, none) = (
  record s { grant_store = some g },
  described 400 "invalid_grant" "Invalid or expired refresh token",
)
consumed cfg env draws s client_id (g, some rg) =
    accepted cfg env draws (record s { grant_store = some g }) g rg client_id

unfoldable pub handle_refresh_token :
    Config → Env → Draws → State → String → String → State × Response
unfolding consumed
handle_refresh_token cfg env draws s refresh_token client_id = elim s.grant_store [
  | none ↦ (s, described 400 "invalid_grant" "Refresh token flow not configured")
  | some g ↦
      if refresh_token == ""
      then (s, described 400 "invalid_grant" "Missing refresh token")
      else consumed cfg env draws s client_id
          (consume_refresh_token (draws.clock 0) refresh_token g)
]
