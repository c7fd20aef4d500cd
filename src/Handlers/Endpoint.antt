-- ===== src/Handlers/Endpoint.antt =====
-- parseTokenParams, handleToken, handleRevoke and handleIntrospect of
-- internal/handlers/handlers.go.
pub mod Revocation
pub mod Introspection
use Prim.Native.String
use fake_auth.Base.{
  ℕ, String, Bool, true, false, not, ◌&&◌, ◌||◌, Option, none, some, List, [], ◌∷◌, or_else, ◌==◌,
  if◌then◌else◌, pos,
}
use fake_auth.Text.{contains, has_prefix, or_text}
use fake_auth.Dict.{Dict, get, put, entries, text_at}
use fake_auth.Json.{Value, null, bool, int, str, as_string}
use fake_auth.Token.{Checked, accepted, refused, validate}
use fake_auth.Web.{Request}
use fake_auth.Grants
use fake_auth.Grants.{DeviceCode, revoke_refresh_token, save_device_code}
use fake_auth.Handlers.{
  Env, Draws, Config, State, Body, json, nothing, Response, send_json, error_json,
}
use fake_auth.Handlers.CodeExchange.{Exchange, handle_authorization_code}
use fake_auth.Handlers.Refresh.{handle_refresh_token}
use fake_auth.Handlers.DeviceToken.{handle_device_code_token}
use fake_auth.Handlers.Password.{Login, handle_password_grant, handle_client_credentials}

-- The members that are texts.
put_texts : List (String × Value) → Dict String → Dict String
put_texts [] out = out
put_texts ((k, v) ∷ es) out =
    put_texts es (elim (as_string (some v)) [ none ↦ out | some s ↦ put out k s ])

-- The first value of each key.
put_firsts : List (String × List String) → Dict String → Dict String
put_firsts [] out = out
put_firsts ((k, []) ∷ es) out = put_firsts es out
put_firsts ((k, v ∷ vs) ∷ es) out = put_firsts es (put out k v)

unfoldable pub parse_token_params : Request → Dict String
unfolding put_texts put_firsts
parse_token_params r =
    if contains r.content_type "application/json"
    then put_texts (entries (or_else r.json_body [])) []
    else put_firsts (entries r.form) []

unfoldable pub handle_token : Config → Env → Draws → State → Request → State × Response
handle_token cfg env draws s r =
    let p = parse_token_params r in
    let grant_type = text_at p "grant_type" in
    let client_id = or_text (text_at p "client_id") "e2e-test" in
    if grant_type == "client_credentials"
    then handle_client_credentials cfg env draws s client_id
    else if grant_type == "http://auth0.com/oauth/grant-type/password-realm"
        || grant_type == "password"
    then handle_password_grant cfg env draws s (record {
      username = text_at p "username";
      password = text_at p "password";
      client_id = client_id;
      scope = text_at p "scope";
      audience = text_at p "audience";
    })
    else if grant_type == "authorization_code"
    then handle_authorization_code cfg env draws s (record {
      code = text_at p "code";
      redirect_uri = text_at p "redirect_uri";
      client_id = text_at p "client_id";
      client_secret = text_at p "client_secret";
      code_verifier = text_at p "code_verifier";
    })
    else if grant_type == "refresh_token"
    then handle_refresh_token cfg env draws s (text_at p "refresh_token") (text_at p "client_id")
    else if grant_type == "urn:ietf:params:oauth:grant-type:device_code"
    then handle_device_code_token cfg env draws s (text_at p "device_code")
    else (s, error_json 400 "unsupported_grant_type")

abbrev ok : Response
ok = record { status = 200; body = nothing }

-- handleRevoke, on the token and the hint of the request.
unfoldable pub revoke_token : State → String → String → State × Response
revoke_token s tok hint =
    if tok == ""
    then (s, ok)
    else if hint == "refresh_token" || has_prefix tok "rt_"
    then (
      elim s.grant_store [
        | none ↦ s
        | some g ↦ record s { grant_store = some (revoke_refresh_token tok g).0 }
      ],
      ok,
    )
    else (s, ok)

unfoldable pub handle_revoke : State → Request → State × Response
unfolding revoke_token
handle_revoke s r =
    let p = parse_token_params r in revoke_token s (text_at p "token") (text_at p "token_type_hint")

abbrev pub inactive : Dict Value
inactive = ("active", bool false) ∷ []

-- A claim as it is, or null.
abbrev pub claim : Dict Value → String → Value
claim claims k = or_else (get claims k) null

abbrev pub put_text : String → Option String → Dict Value → Dict Value
put_text k none out = out
put_text k (some s) out = put out k (str s)

-- The answer about a token.
unfoldable pub introspected : Checked → Dict Value
introspected (refused e) = inactive
introspected (accepted claims) = put_text "scope" (as_string (get claims "scope")) (
    put_text "client_id" (as_string (get claims "azp")) (
      ("active", bool true)
      ∷ ("sub", claim claims "sub")
      ∷ ("iss", claim claims "iss")
      ∷ ("aud", claim claims "aud")
      ∷ ("exp", claim claims "exp")
      ∷ ("iat", claim claims "iat")
      ∷ []))

unfoldable pub introspect : Config → Env → ℕ → String → Response
unfolding introspected
introspect cfg env now tok =
    if tok == ""
    then send_json 200 inactive
    else send_json 200 (introspected (validate env.jwt cfg.issuer now tok))

unfoldable pub handle_introspect : Config → Env → Draws → Request → Response
unfolding introspect
handle_introspect cfg env draws r =
    introspect cfg env (draws.clock 0) (text_at (parse_token_params r) "token")
