-- ===== src/Handlers/DeviceToken.antt =====
-- handleDeviceCodeToken of internal/handlers/handlers.go: a device code for tokens.
pub mod Consent
use Prim.Native.String
use fake_auth.Base.{
  ℕ, ℤ, pos, String, Bool, true, false, not, ◌&&◌, Option, none, some, List, [], ◌∷◌, or_else, ◌==◌,
  if◌then◌else◌,
}
use fake_auth.Text.{contains, or_text}
use fake_auth.Dict.{Dict, put}
use fake_auth.Json.{Value, str, int}
use fake_auth.Token.{IdTokenOptions, issue, issue_id_token}
use fake_auth.Database
use fake_auth.Database.{Fetched, found, missing, broken, get_by_id}
use fake_auth.Grants
use fake_auth.Grants.{DeviceCode, get_device_code, consume_device_code}
use fake_auth.Handlers.{
  Env, Draws, Config, State, Response, access_lifetime, id_lifetime, engine_of, send_json,
  error_json, described,
}
use fake_auth.Handlers.Issuing.{merge_claims, rule_user, shown_name, bearer, put_token}

-- The device's audience, else its client, else the default.
unfoldable pub audience_of : DeviceCode → String
unfolding or_text
audience_of dc = or_text (or_text dc.audience dc.client_id) "https://api.example.com"

unfoldable pub add_id_token :
    Config → Env → ℕ → DeviceCode → Database.User → String → Dict Value → Dict Value
unfolding put_token id_lifetime
add_id_token cfg env now dc u session_id resp =
    let ru = rule_user cfg u dc.client_id in
    let opts : IdTokenOptions = record {
      nonce = "";
      amr = "pwd" ∷ [];
      access_token = "";
      auth_code = "";
      session_id = session_id;
      custom_claims = or_else ru.id_token_claims [];
    } in
    if contains dc.scope "openid"
    then put_token "id_token"
        (issue_id_token env.jwt cfg.issuer now dc.user_id (audience_of dc) dc.client_id
          (pos (id_lifetime cfg)) dc.scope ru.email (shown_name ru) "" (some opts))
        resp
    else resp

-- From the access token on.
issued : Config → Env → Draws → DeviceCode → Database.User → Option String → Response
unfolding add_id_token bearer access_lifetime
issued cfg env draws dc u none = error_json 500 "server_error"
issued cfg env draws dc u (some access_token) = send_json 200 (
    add_id_token cfg env (draws.clock 4) dc u (String.◌++◌ "sid_" (draws.uuid 0))
      (bearer (access_lifetime cfg) access_token))

device_tokens : Config → Env → Draws → DeviceCode → Fetched Database.User → Response
unfolding issued merge_claims access_lifetime
device_tokens cfg env draws dc missing = error_json 500 "server_error"
device_tokens cfg env draws dc (broken e) = error_json 500 "server_error"
device_tokens cfg env draws dc (found u) = issued cfg env draws dc u (
    issue env.jwt cfg.issuer (draws.clock 3) dc.user_id (audience_of dc) dc.client_id
      (pos (access_lifetime cfg))
      (merge_claims (rule_user cfg u dc.client_id).access_token_claims
        cfg.extra_access_token_claims))

-- After ConsumeDeviceCode.
taken : Config → Env → Draws → State → Grants.Store × Option DeviceCode → State × Response
unfolding device_tokens
taken cfg env draws s (g, none) = (
  record s { grant_store = some g },
  described 400 "invalid_grant" "Invalid or expired device_code",
)
taken cfg env draws s (g, some dc) = (
  record s { grant_store = some g },
  device_tokens cfg env draws dc (get_by_id (engine_of env draws 0) env.codec s.db dc.user_id),
)

-- After GetDeviceCode.
polled : Config → Env → Draws → State → String → Grants.Store × Option DeviceCode → State × Response
unfolding taken
polled cfg env draws s device_code (g, none) = (
  record s { grant_store = some g },
  described 400 "invalid_grant" "Invalid or expired device_code",
)
polled cfg env draws s device_code (g, some dc) =
    if dc.access_denied
    then (
      record s { grant_store = some g },
      described 400 "access_denied" "User denied the request",
    )
    else if not dc.user_authorized
    then (
      record s { grant_store = some g },
      described 400 "authorization_pending" "User has not yet completed authorization",
    )
    else taken cfg env draws s (consume_device_code env.upper (draws.clock 2) device_code g)

unfoldable pub handle_device_code_token : Config → Env → Draws → State → String → State × Response
unfolding polled
handle_device_code_token cfg env draws s device_code = elim s.grant_store [
  | none ↦ (s, described 400 "invalid_grant" "Device code flow not configured")
  | some g ↦
      if device_code == ""
      then (s, described 400 "invalid_grant" "Missing device_code")
      else polled cfg env draws s device_code
          (get_device_code env.upper (draws.clock 0) (draws.clock 1) device_code g)
]
