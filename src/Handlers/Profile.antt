-- ===== src/Handlers/Profile.antt =====
-- handleUserinfo, handleTokeninfo, handleOpenIDConfig and handleJWKS of
-- internal/handlers/handlers.go: what a token says of its user, and the discovery documents.
pub mod Access
use Prim.Native.String
use fake_auth.Base.{
  ℕ, String, Bool, true, not, ◌||◌, Option, none, some, List, [], ◌∷◌, ◌==◌, if◌then◌else◌, or_else,
  is_some,
}
use fake_auth.Text.{contains, has_prefix, trim_prefix, or_text}
use fake_auth.Dict.{Dict, get, put, entries}
use fake_auth.Dict.Range.{copy}
use fake_auth.Json.{Value, bool, str, as_string, string_or_empty}
use fake_auth.Token.{Checked, accepted, refused, validate, jwks}
use fake_auth.Web.{Request, form_value}
use fake_auth.Database
use fake_auth.Database.{Db, Fetched, found, missing, broken, get_by_id}
use fake_auth.Handlers.{
  Env, Draws, Config, State, Body, bytes, Response, engine_of, send_json, described, base_url,
}

abbrev pub invalid_token : String → Response
invalid_token description = described 401 "invalid_token" description

-- if email, ok := claims["email"].(string); ok { … }
put_email : Option String → Dict Value → Dict Value
put_email none profile = profile
put_email (some e) profile = put (put profile "email" (str e)) "email_verified" (bool true)

put_name : Option String → Dict Value → Dict Value
put_name none profile = profile
put_name (some n) profile = put profile "name" (str n)

-- What the claims say, for a subject that the database does not yield.
claimed : String → Dict Value → Dict Value
unfolding put_email put_name
claimed sub claims =
    put_name (as_string (get claims "name"))
      (put_email (as_string (get claims "email")) (("sub", str sub) ∷ []))

userinfo_profile : String → Dict Value → Fetched Database.User → Dict Value
unfolding claimed
userinfo_profile sub claims missing = claimed sub claims
userinfo_profile sub claims (broken e) = claimed sub claims
userinfo_profile sub claims (found u) =
    ("sub", str u.id)
    ∷ ("email", str u.email)
    ∷ ("email_verified", bool true)
    ∷ ("name", str u.display_name)
    ∷ []

unfoldable pub userinfo_for : Env → Draws → State → Checked → Response
unfolding userinfo_profile
userinfo_for env draws s (refused e) = invalid_token e
userinfo_for env draws s (accepted claims) =
    let sub = string_or_empty (get claims "sub") in
    if sub == ""
    then invalid_token "Missing sub claim"
    else send_json 200
        (userinfo_profile sub claims (get_by_id (engine_of env draws 0) env.codec s.db sub))

unfoldable pub handle_userinfo : Config → Env → Draws → State → Request → Response
unfolding userinfo_for
handle_userinfo cfg env draws s r =
    if r.authorization == "" || not (has_prefix r.authorization "Bearer ")
    then invalid_token "Missing or invalid Authorization header"
    else userinfo_for env draws s
        (validate env.jwt cfg.issuer (draws.clock 0) (trim_prefix r.authorization "Bearer "))

-- The token of the request: the ID token, or else the access token.
token_of : Request → String
unfolding form_value or_text contains
token_of r =
    if contains r.content_type "application/json"
    then (let params = or_else r.json_body [] in
        or_text (string_or_empty (get params "id_token"))
          (string_or_empty (get params "access_token")))
    else or_text (form_value r "id_token") (form_value r "access_token")

-- for k, v := range claims { if _, has := profile[k]; !has { profile[k] = v } }
fill : List (String × Value) → Dict Value → Dict Value
fill [] profile = profile
fill ((k, v) ∷ es) profile =
    fill es (if not (is_some (get profile k)) then put profile k v else profile)

tokeninfo_profile : String → Dict Value → Fetched Database.User → Dict Value
unfolding fill copy entries
tokeninfo_profile sub claims missing = copy claims (("user_id", str sub) ∷ ("sub", str sub) ∷ [])
tokeninfo_profile sub claims (broken e) = copy claims (("user_id", str sub) ∷ ("sub", str sub) ∷ [])
tokeninfo_profile sub claims (found u) = fill (entries claims) (
    ("user_id", str u.id)
    ∷ ("sub", str u.id)
    ∷ ("email", str u.email)
    ∷ ("email_verified", bool true)
    ∷ ("name", str u.display_name)
    ∷ [])

unfoldable pub tokeninfo_for : Env → Draws → State → Checked → Response
unfolding tokeninfo_profile
tokeninfo_for env draws s (refused e) = invalid_token e
tokeninfo_for env draws s (accepted claims) =
    let sub = string_or_empty (get claims "sub") in
    if sub == ""
    then invalid_token "Missing sub claim"
    else send_json 200
        (tokeninfo_profile sub claims (get_by_id (engine_of env draws 0) env.codec s.db sub))

unfoldable pub handle_tokeninfo : Config → Env → Draws → State → Request → Response
unfolding tokeninfo_for token_of
handle_tokeninfo cfg env draws s r =
    let token = token_of r in
    if token == ""
    then described 400 "invalid_request" "id_token or access_token required"
    else tokeninfo_for env draws s (validate env.jwt cfg.issuer (draws.clock 0) token)

unfoldable pub handle_openid_config : Config → Response
unfolding base_url
handle_openid_config cfg =
    let at : String → Value = λ path. str (String.◌++◌ (base_url cfg) path) in
    send_json 200 (
      ("issuer", at "/")
      ∷ ("jwks_uri", at "/.well-known/jwks.json")
      ∷ ("token_endpoint", at "/oauth/token")
      ∷ ("authorization_endpoint", at "/authorize")
      ∷ ("userinfo_endpoint", at "/userinfo")
      ∷ ("end_session_endpoint", at "/v2/logout")
      ∷ ("revocation_endpoint", at "/oauth/revoke")
      ∷ ("introspection_endpoint", at "/oauth/introspect")
      ∷ [])

-- The document can always be written as JSON.
unfoldable pub handle_jwks : Config → Env → Response
unfolding jwks
handle_jwks cfg env = record {
  status = 200;
  body = bytes (env.codec.marshal (jwks env.jwt cfg.issuer));
}
