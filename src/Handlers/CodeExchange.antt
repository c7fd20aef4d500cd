-- ===== src/Handlers/CodeExchange.antt =====
-- handleAuthorizationCode and normalizeURI of internal/handlers/handlers.go: a code for tokens.
pub mod Outcomes
pub mod Soundness
pub mod Replay
pub mod Contents
pub mod Liveness
use Prim.Native.String
use fake_auth.Base.{
  ℕ, ◌+◌, ℤ, pos, String, Bool, true, false, not, ◌&&◌, ◌||◌, Option, none, some, List, [], ◌∷◌,
  ◌==◌, ltb, after, if◌then◌else◌, or_else,
}
use fake_auth.Text.{contains, or_text, trim_suffix}
use fake_auth.Dict.{Dict, get, put}
use fake_auth.Dict.Range.{sweep}
use fake_auth.Json.{Value}
use fake_auth.Pkce
use fake_auth.Token.{IdTokenOptions, issue, issue_id_token}
use fake_auth.Database
use fake_auth.Database.{Fetched, found, missing, broken, get_by_id}
use fake_auth.Clients.{Registry, is_confidential, validate_secret}
use fake_auth.Grants
use fake_auth.Grants.{AuthCode, consume_code, save_refresh_token}
use fake_auth.Rules
use fake_auth.Audit.{log_token}
use fake_auth.Handlers.{
  Url, Env, Draws, Config, ReplayEntry, Event, counted, logged, State, Body, json, bytes, Response,
  code_replay_ttl, access_lifetime, id_lifetime, engine_of, send_json, error_json, described,
  report,
}
use fake_auth.Handlers.Issuing.{merge_claims, rule_user, shown_name, bearer, put_token}

-- The parameters of the exchange.
pub record Exchange : Type 0 where
  pub code : String
  pub redirect_uri : String
  pub client_id : String
  pub client_secret : String
  pub code_verifier : String

-- The path without its trailing slash, and neither query nor raw fragment.
trimmed_url : Url → Url
unfolding trim_suffix
trimmed_url u = record u {
  path =
      if u.path == "/" then "" else if not (u.path == "") then trim_suffix u.path "/" else u.path;
  raw_query = "";
  raw_fragment = "";
}

unfoldable pub normalize_uri : Env → String → String
unfolding trimmed_url
normalize_uri env uri = elim (env.parse_url uri) [
  | none ↦ uri
  | some u ↦ env.url_string (trimmed_url u)
]

-- An unknown code: the cached response of an earlier exchange, while it is kept.
unfoldable pub replayed : ℕ → Option ReplayEntry → Response
replayed now none = described 400 "invalid_grant" "Invalid or expired authorization code"
replayed now (some ent) =
    if ltb now ent.expires
    then record { status = 200; body = bytes ent.body }
    else described 400 "invalid_grant" "Invalid or expired authorization code"

-- The check of the code's challenge.
pkce_refusal : Env → AuthCode → String → Option Response
pkce_refusal env ac verifier =
    if ac.code_challenge == ""
    then none
    else elim (Pkce.verify env.s256 verifier ac.code_challenge ac.code_challenge_method) [
      | none ↦ none
      | some e ↦ some (described 400 "invalid_grant" e)
    ]

-- The check of the client's secret.
secret_refusal : Option Registry → AuthCode → String → Option Response
secret_refusal none ac secret = none
secret_refusal (some r) ac secret =
    if r.require_secret_for_codes
      && is_confidential r ac.client_id
      && not (validate_secret r ac.client_id secret)
    then some (described 400 "invalid_client" "Invalid client_secret")
    else none

-- The first check of a consumed code that fails.
unfoldable pub refusal : Config → Env → AuthCode → Exchange → Option Response
unfolding pkce_refusal secret_refusal
refusal cfg env ac x =
    if not (x.client_id == "") && not (ac.client_id == x.client_id)
    then some (described 400 "invalid_grant" "Client ID mismatch")
    else if not (x.redirect_uri == "")
        && not (normalize_uri env ac.redirect_uri == normalize_uri env x.redirect_uri)
    then some (described 400 "invalid_grant" "Redirect URI mismatch")
    else elim (pkce_refusal env ac x.code_verifier) [
      | some r ↦ some r
      | none ↦ secret_refusal cfg.client_registry ac x.client_secret
    ]

abbrev pub effective_client : AuthCode → Exchange → String
effective_client ac x = if x.client_id == "" then ac.client_id else x.client_id

unfoldable pub audience_of : AuthCode → Exchange → String
unfolding or_text
audience_of ac x = or_text (or_text ac.audience "https://api.example.com") (effective_client ac x)

-- The ID token that an `openid` scope asks for.
add_id_token :
    Config
    → Env
    → ℕ
    → AuthCode
    → Exchange
    → Database.User
    → String
    → String
    → Dict Value
    → Dict Value
unfolding put_token id_lifetime
add_id_token cfg env now ac x u session_id access_token resp =
    let ru = rule_user cfg u (effective_client ac x) in
    let opts : IdTokenOptions = record {
      nonce = ac.nonce;
      amr = "pwd" ∷ [];
      access_token = access_token;
      auth_code = x.code;
      session_id = session_id;
      custom_claims = or_else ru.id_token_claims [];
    } in
    if contains ac.scope "openid"
    then put_token "id_token"
        (issue_id_token env.jwt cfg.issuer now u.id (audience_of ac x) (effective_client ac x)
          (pos (id_lifetime cfg)) ac.scope ru.email (shown_name ru) "" (some opts))
        resp
    else resp

-- The refresh token that an `offline_access` scope asks for.
add_refresh :
    Draws
    → Grants.Store
    → AuthCode
    → Exchange
    → Database.User
    → String
    → Dict Value
    → Grants.Store × Dict Value
unfolding put_token
add_refresh draws g ac x u session_id resp =
    if contains ac.scope "offline_access"
    then (let token = String.◌++◌ "rt_" (draws.uuid 1) in
        (
          save_refresh_token (draws.clock 4) (draws.clock 5) token
              (record {
                user_id = u.id;
                client_id = effective_client ac x;
                scope = ac.scope;
                audience = "";
                session_id = session_id;
                expires_at = 0;
              })
              g,
          put_token "refresh_token" (some token) resp,
        ))
    else (g, resp)

-- The response is cached for a duplicate request, and old entries go.
remember : Env → Draws → String → Dict Value → State → State
unfolding sweep
remember env draws code resp s = record s {
  code_replay_cache =
      sweep (λ e. after (draws.clock 7) e.expires)
        (put s.code_replay_cache code
          (record { body = env.codec.marshal resp; expires = draws.clock 6 + code_replay_ttl }));
}

-- From the access token on.
issued :
    Config
    → Env
    → Draws
    → State
    → Grants.Store
    → AuthCode
    → Exchange
    → Database.User
    → String
    → Option String
    → State × Response
unfolding add_id_token add_refresh remember bearer access_lifetime
issued cfg env draws s g ac x u session_id none = (s, error_json 500 "server_error")
issued cfg env draws s g ac x u session_id (some access_token) =
    let plain = bearer (access_lifetime cfg) access_token in
    let named = add_id_token cfg env (draws.clock 3) ac x u session_id access_token plain in
    let (kept, resp) = add_refresh draws g ac x u session_id named in
    let s1 =
      report (counted "token_requests" ("authorization_code" ∷ "success" ∷ []))
        (record s { grant_store = some kept }) in
    let s2 =
      report
        (logged
          (log_token (draws.clock 9) "authorization_code" u.id (effective_client ac x) true none))
        s1 in
    (remember env draws x.code resp s2, send_json 200 resp)

grant_tokens :
    Config
    → Env
    → Draws
    → State
    → Grants.Store
    → AuthCode
    → Exchange
    → Fetched Database.User
    → State × Response
unfolding issued merge_claims or_text access_lifetime
grant_tokens cfg env draws s g ac x missing = (s, error_json 500 "server_error")
grant_tokens cfg env draws s g ac x (broken e) = (s, error_json 500 "server_error")
grant_tokens cfg env draws s g ac x (found u) =
    let ru = rule_user cfg u (effective_client ac x) in
    let session_id = or_text ac.session_id (String.◌++◌ "sid_" (draws.uuid 0)) in
    issued cfg env draws s g ac x u session_id (
      issue env.jwt cfg.issuer (draws.clock 2) u.id (audience_of ac x) (effective_client ac x)
        (pos (access_lifetime cfg))
        (merge_claims ru.access_token_claims cfg.extra_access_token_claims))

-- The checks of a code that was consumed, and the user.
checked :
    Config
    → Env
    → Draws
    → State
    → Grants.Store
    → AuthCode
    → Exchange
    → Option Response
    → State × Response
unfolding grant_tokens
checked cfg env draws s g ac x (some r) = (s, r)
checked cfg env draws s g ac x none =
    grant_tokens cfg env draws s g ac x
      (get_by_id (engine_of env draws 0) env.codec s.db ac.user_id)

consumed :
    Config → Env → Draws → State → Exchange → Grants.Store × Option AuthCode → State × Response
unfolding checked replayed
consumed cfg env draws s x (g, none) =
    (record s { grant_store = some g }, replayed (draws.clock 1) (get s.code_replay_cache x.code))
consumed cfg env draws s x (g, some ac) =
    checked cfg env draws (record s { grant_store = some g }) g ac x (refusal cfg env ac x)

unfoldable pub handle_authorization_code :
    Config → Env → Draws → State → Exchange → State × Response
unfolding consumed
handle_authorization_code cfg env draws s x = elim s.grant_store [
  | none ↦ (s, described 400 "invalid_grant" "Authorization code flow not configured")
  | some g ↦
      if x.code == ""
      then (s, described 400 "invalid_grant" "Missing authorization code")
      else consumed cfg env draws s x (consume_code (draws.clock 0) x.code g)
]
