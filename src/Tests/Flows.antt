-- ===== src/Tests/Flows.antt =====
-- Signing in, and the code flow from end to end.
use fake_auth.Base.{◌≡◌, refl, ◌⊎◌, inl, inr, arith, eq_iff, true, some, [], ◌∷◌}
use fake_auth.Dict.{Dict, get}
use fake_auth.Web.{Request, Values, first}
use fake_auth.Pkce.Laws.{Accepts}
use fake_auth.Database
use fake_auth.Database.{found, get_by_id, get_by_email, verify_password}
use fake_auth.Handlers.{Url, Env, State, engine_of}
use fake_auth.Handlers.SignIn.Redirect.{Redirects}
use fake_auth.Handlers.SignIn.Opening.{MayOpen}
use fake_auth.Handlers.SignIn.Proof.{KnowsPassword, Offers}
use fake_auth.Handlers.Authorize.{handle_authorize}
use fake_auth.Handlers.Authorize.Consent.{
  SignedIn, AllowsRedirect, AllowsScope, asked, consent_only_if_authenticated,
}
use fake_auth.Handlers.Authorize.Liveness.{AsksForCode, Presents, authorize_then_exchange}
use fake_auth.Handlers.Login.{handle_login}
use fake_auth.Handlers.Login.Proof.{wanted, page_after_login_only_if_verified}
use fake_auth.Handlers.CodeExchange.{Exchange, handle_authorization_code}
use fake_auth.Handlers.CodeExchange.Soundness.{IsEntitled, SecretOk, issues_tokens}
use fake_auth.Handlers.CodeExchange.Liveness.{Signs, entitled_exchange_succeeds}
use fake_auth.Tests.Fixtures.{
  config, env, draws_at, sessions, state, exchange, grants, code_grant, jwt, codec, db, ann,
}

abbrev url : Url
url = record { rest = ""; path = "/cb"; raw_query = ""; fragment = ""; raw_fragment = "" }

abbrev web : Env
web = record env { jwt = record jwt { sign = λ kid claims. some kid }; parse_url = λ s. some url }

abbrev query : Values
query =
    ("response_type", "code" ∷ [])
    ∷ ("client_id", "app" ∷ [])
    ∷ ("redirect_uri", "https://app.test/cb" ∷ [])
    ∷ ("scope", "openid" ∷ [])
    ∷ ("username", "ann@test" ∷ [])
    ∷ ("password", "pw" ∷ [])
    ∷ ("state", "st" ∷ [])
    ∷ ("code_challenge", "s256-verifier" ∷ [])
    ∷ []

abbrev request : Request
request = record {
  method = "GET";
  path = "/authorize";
  query = query;
  form = query;
  cookie = some "sid_1";
  authorization = "";
  content_type = "";
  body = "";
  json_body = some [];
}

-- The user as it is read from the database.
abbrev stored : Database.User
stored = record ann { app_metadata = some [] }

consent_only_if_authenticated_example :
    let p = asked request in
    let after = (handle_authorize config web (draws_at 60 "x1") state request).0 in
    (after.grant_store ≡ some grants)
    ⊎ ((u : Database.User) × Offers (draws_at 60 "x1") p u state after
        × AllowsRedirect config.client_registry (first (get query "client_id")) p.redirect_uri
        × AllowsScope web config.client_registry p.client_id p.scope
        × SignedIn web (draws_at 60 "x1") state p (some "sid_1") u)
consent_only_if_authenticated_example =
    consent_only_if_authenticated config web (draws_at 60 "x1") state request

abbrev posted : Request
posted = record request { method = "POST"; path = "/login" }

abbrev with_sessions : State
with_sessions = record state { session_store = some sessions }

page_after_login_only_if_verified_example :
    let p = wanted posted in
    let after = (handle_login config web (draws_at 60 "x1") with_sessions posted).0 in
    ((after.grant_store ≡ some grants) × (after.session_store ≡ some sessions))
    ⊎ ((u : Database.User) × KnowsPassword web (draws_at 60 "x1") db p.username p.password u
        × MayOpen (draws_at 60 "x1") u (some sessions) after.session_store
        × ((after.grant_store ≡ some grants) ⊎ Offers (draws_at 60 "x1") p u with_sessions after))
page_after_login_only_if_verified_example =
    page_after_login_only_if_verified config web (draws_at 60 "x1") with_sessions posted

signs : Signs web.jwt
signs kid claims = (kid, refl)

found_code : get grants.codes "c1" ≡ some code_grant
unfolding get
found_code = refl

accepts : Accepts web.s256 "verifier" "s256-verifier" "S256"
accepts = (
  ground (arith, eq_iff "verifier" ""),
  ground (arith, eq_iff "s256-verifier" ""),
  inl (inr refl, refl),
)

secret_ok : SecretOk config.client_registry "app" "s3cret"
unfolding fake_auth.Clients.validate_secret get
secret_ok = inr (inr refl)

entitled : IsEntitled config web code_grant exchange
entitled = record {
  client = inr refl;
  redirect = inr refl;
  proof = inr accepts;
  secret = secret_ok;
}

known : get_by_id (engine_of web (draws_at 60 "x1") 0) codec db "u1" ≡ found stored
unfolding get_by_id
known = refl

entitled_exchange_succeeds_example :
    issues_tokens (handle_authorization_code config web (draws_at 60 "x1") state exchange).1 ≡ true
entitled_exchange_succeeds_example =
    entitled_exchange_succeeds config web (draws_at 60 "x1") state grants code_grant exchange stored
      refl (ground (arith, eq_iff "c1" "")) found_code (omega arith) entitled known signs

asks : AsksForCode config web (draws_at 60 "x1") state request stored url
unfolding get fake_auth.Clients.validate_redirect_uri fake_auth.Clients.validate_scope
    fake_auth.Text.fields fake_auth.Dict.put get_by_email
asks = record {
  code = refl;
  target = ground (arith, eq_iff "https://app.test/cb" "");
  name = ground (arith, eq_iff "ann@test" "");
  secret = ground (arith, eq_iff "pw" "");
  redirect = refl;
  scope = refl;
  parsed = refl;
  knows = record { known = refl; right = refl };
}

abbrev later : Exchange
later = record exchange { code = "ac_x1" }

presents : Presents config web (draws_at 60 "x1") (asked request) later
unfolding get
presents = record {
  code = refl;
  client = refl;
  redirect = refl;
  proof = inr accepts;
  secret = secret_ok;
}

authorize_then_exchange_example :
    let signed_in = handle_authorize config web (draws_at 60 "x1") state request in
    Redirects web url "ac_x1" (first (get query "state")) signed_in.1.response
    × (issues_tokens (handle_authorization_code config web (draws_at 70 "x2") signed_in.0 later).1
        ≡ true)
authorize_then_exchange_example =
    authorize_then_exchange config web (draws_at 60 "x1") (draws_at 70 "x2") state request later
      stored stored url grants refl asks presents (omega arith) known signs
