-- ===== src/Handlers/Serve/Keeps.antt =====
-- What no sequence of requests breaks: ids and addresses of users stay unique; and what no GET
-- request changes: the database.
use fake_auth.Base.{String, ◌≡◌, refl, Bool, true, false, List, [], ◌∷◌, arith}
use fake_auth.Text.{or_text, trim_suffix}
use fake_auth.Dict.{text_at}
use fake_auth.Web.{Request}
use fake_auth.Database.Users.{IsConsistent}
use fake_auth.Handlers.Api.Users.Keeps.{
  create-IsConsistent, delete-IsConsistent, patch-IsConsistent, blocks-users,
}
use fake_auth.Handlers.Api.Roles.Keeps.{
  create_role-users, handle_patch_role-users, handle_delete_role-users,
  handle_user_roles_modify-users,
}
use fake_auth.Handlers.Api.Clients.Keeps.{handle_patch_client-users}
use fake_auth.Handlers.Signup.Account.{handle_signup-IsConsistent}
use fake_auth.Handlers.Serve.{
  Route, options, health, metrics, authorize, login, token, revoke, introspect, device_code,
  device_authorize, userinfo, tokeninfo, signup, list_users, create_user, get_user_blocks,
  modify_user_blocks, get_user, delete_user, patch_user, modify_user_roles, jwks, openid_config,
  logout, universal_login, login_callback, get_user_roles, get_user_permissions, list_roles,
  create_role, get_role, patch_role, delete_role, list_clients, get_client, patch_client,
  list_connections, get_connection, list_logs, not_found, route, route_users, route_api, dispatch,
  serve_http,
}
use fake_auth.Handlers.{Env, Draws, Config, State}
use fake_auth.Handlers.CodeExchange.{Exchange, handle_authorization_code}
use fake_auth.Handlers.Refresh.{handle_refresh_token}
use fake_auth.Handlers.DeviceToken.{handle_device_code_token}
use fake_auth.Handlers.Password.{Login, handle_password_grant, handle_client_credentials}
use fake_auth.Handlers.Endpoint.{parse_token_params, handle_token, handle_revoke}
use fake_auth.Handlers.Authorize.Reads.{handle_authorize-db}
use fake_auth.Handlers.Login.Reads.{handle_login-db, handle_universal_login-db}
use fake_auth.Handlers.Logout.{handle_logout}
use fake_auth.Handlers.DeviceGrant.{handle_device_code_request, handle_device_authorize}

module _ (cfg : Config) (env : Env) (draws : Draws) (s : State) where
  exchange-db : (x : Exchange) → (handle_authorization_code cfg env draws s x).0.db ≡ s.db
  unfolding handle_authorization_code
  exchange-db x = ground arith

  refresh-db : (tok client : String) → (handle_refresh_token cfg env draws s tok client).0.db ≡ s.db
  unfolding handle_refresh_token
  refresh-db tok client = ground arith

  device_token-db : (code : String) → (handle_device_code_token cfg env draws s code).0.db ≡ s.db
  unfolding handle_device_code_token
  device_token-db code = ground arith

  password-db : (l : Login) → (handle_password_grant cfg env draws s l).0.db ≡ s.db
  unfolding handle_password_grant
  password-db l = ground arith

  credentials-db :
      (client : String) → (handle_client_credentials cfg env draws s client).0.db ≡ s.db
  unfolding handle_client_credentials
  credentials-db client = ground arith

  token-db : (r : Request) → (handle_token cfg env draws s r).0.db ≡ s.db
  unfolding handle_token
  token-db r =
      let p = parse_token_params r in
      let at : String → String = λ k. text_at p k in
      let client_id = or_text (at "client_id") "e2e-test" in
      ground (
        arith,
        credentials-db client_id,
        password-db (record {
          username = at "username";
          password = at "password";
          client_id = client_id;
          scope = at "scope";
          audience = at "audience";
        }),
        exchange-db (record {
          code = at "code";
          redirect_uri = at "redirect_uri";
          client_id = at "client_id";
          client_secret = at "client_secret";
          code_verifier = at "code_verifier";
        }),
        refresh-db (at "refresh_token") (at "client_id"),
        device_token-db (at "device_code"),
      )

  revoke-db : (r : Request) → (handle_revoke s r).0.db ≡ s.db
  unfolding handle_revoke
  revoke-db r = ground arith

  logout-db : (r : Request) → (handle_logout env s r).0.db ≡ s.db
  unfolding handle_logout
  logout-db r = ground arith

  device_code-db : (r : Request) → (handle_device_code_request cfg env draws s r).0.db ≡ s.db
  unfolding handle_device_code_request
  device_code-db r = ground arith

  device_authorize-db : (r : Request) → (handle_device_authorize env draws s r).0.db ≡ s.db
  unfolding handle_device_authorize
  device_authorize-db r = ground arith

-- A state whose users have unique ids and addresses.
abbrev Healthy : State → Type 0
Healthy s = IsConsistent s.db

dispatch-Healthy :
    (route : Route) (cfg : Config) (env : Env) (draws : Draws) (s : State) (r : Request)
    (path : String)
    → Healthy s
    → Healthy (dispatch route cfg env draws s r path).0
unfolding dispatch
dispatch-Healthy options cfg env draws s r path h = h
dispatch-Healthy health cfg env draws s r path h = h
dispatch-Healthy metrics cfg env draws s r path h = h
dispatch-Healthy authorize cfg env draws s r path h = rw (handle_authorize-db cfg env draws s r) h
dispatch-Healthy login cfg env draws s r path h = rw (handle_login-db cfg env draws s r) h
dispatch-Healthy token cfg env draws s r path h = rw (token-db cfg env draws s r) h
dispatch-Healthy revoke cfg env draws s r path h = rw (revoke-db cfg env draws s r) h
dispatch-Healthy introspect cfg env draws s r path h = h
dispatch-Healthy device_code cfg env draws s r path h = rw (device_code-db cfg env draws s r) h
dispatch-Healthy device_authorize cfg env draws s r path h =
    rw (device_authorize-db cfg env draws s r) h
dispatch-Healthy userinfo cfg env draws s r path h = h
dispatch-Healthy tokeninfo cfg env draws s r path h = h
dispatch-Healthy signup cfg env draws s r path h = handle_signup-IsConsistent env draws s h r
dispatch-Healthy list_users cfg env draws s r path h = h
dispatch-Healthy create_user cfg env draws s r path h = create-IsConsistent env draws s h r
dispatch-Healthy get_user_blocks cfg env draws s r path h = h
dispatch-Healthy modify_user_blocks cfg env draws s r path h =
    rw (blocks-users env draws s r path) h
dispatch-Healthy get_user cfg env draws s r path h = h
dispatch-Healthy delete_user cfg env draws s r path h = delete-IsConsistent env draws s h path
dispatch-Healthy patch_user cfg env draws s r path h = patch-IsConsistent env draws s h r
dispatch-Healthy modify_user_roles cfg env draws s r path h =
    rw (handle_user_roles_modify-users env draws s r path) h
dispatch-Healthy jwks cfg env draws s r path h = h
dispatch-Healthy openid_config cfg env draws s r path h = h
dispatch-Healthy logout cfg env draws s r path h = rw (logout-db cfg env draws s r) h
dispatch-Healthy universal_login cfg env draws s r path h =
    rw (handle_universal_login-db cfg env draws s r) h
dispatch-Healthy login_callback cfg env draws s r path h = h
dispatch-Healthy get_user_roles cfg env draws s r path h = h
dispatch-Healthy get_user_permissions cfg env draws s r path h = h
dispatch-Healthy list_roles cfg env draws s r path h = h
dispatch-Healthy create_role cfg env draws s r path h = rw (create_role-users env draws s r) h
dispatch-Healthy get_role cfg env draws s r path h = h
dispatch-Healthy patch_role cfg env draws s r path h =
    rw (handle_patch_role-users env draws s r path) h
dispatch-Healthy delete_role cfg env draws s r path h =
    rw (handle_delete_role-users env draws s path) h
dispatch-Healthy list_clients cfg env draws s r path h = h
dispatch-Healthy get_client cfg env draws s r path h = h
dispatch-Healthy patch_client cfg env draws s r path h =
    rw (handle_patch_client-users env draws s r path) h
dispatch-Healthy list_connections cfg env draws s r path h = h
dispatch-Healthy get_connection cfg env draws s r path h = h
dispatch-Healthy list_logs cfg env draws s r path h = h
dispatch-Healthy not_found cfg env draws s r path h = h

-- A request with what it draws from outside.
pub record Step : Type 0 where
  pub draws : Draws
  pub request : Request

-- The state after a sequence of requests, each served to its end.
unfoldable pub run : Config → Env → State → List Step → State
run cfg env s [] = s
run cfg env s (t ∷ ts) = run cfg env (serve_http cfg env t.draws s t.request).0 ts

serve-Healthy :
    (cfg : Config) (env : Env) (draws : Draws) (s : State) (r : Request)
    → Healthy s
    → Healthy (serve_http cfg env draws s r).0
unfolding serve_http
serve-Healthy cfg env draws s r h =
    let path = trim_suffix r.path "/" in
    dispatch-Healthy (route r.method path) cfg env draws s r path h

-- Where ids and addresses of users are unique, they are unique after every sequence of requests,
-- whatever the requests are, whatever statement of the database fails, and also where a handler
-- panics.
pub run-IsConsistent :
    (cfg : Config) (env : Env) (s : State) (ts : List Step)
    → IsConsistent s.db
    → IsConsistent (run cfg env s ts).db
unfolding run
run-IsConsistent cfg env s [] h = h
run-IsConsistent cfg env s (t ∷ ts) h =
    run-IsConsistent cfg env (serve_http cfg env t.draws s t.request).0 ts
      (serve-Healthy cfg env t.draws s t.request h)

-- The routes whose handlers write to the database.
writes_database : Route → Bool
writes_database modify_user_blocks = true
writes_database modify_user_roles = true
writes_database create_role = true
writes_database patch_role = true
writes_database delete_role = true
writes_database patch_client = true
writes_database signup = true
writes_database create_user = true
writes_database delete_user = true
writes_database patch_user = true
writes_database _ = false

abbrev Reads : Route → Type 0
Reads t = writes_database t ≡ false

route_api-get : (path : String) → Reads (route_api "GET" path)
unfolding route_api writes_database
route_api-get path = ground arith

route_users-get : (path : String) → Reads (route_users "GET" path)
unfolding route_users writes_database
route_users-get path = ground (arith, route_api-get path)

route-get : (path : String) → Reads (route "GET" path)
unfolding route writes_database
route-get path = ground (arith, route_users-get path)

dispatch-reads :
    (route : Route) (cfg : Config) (env : Env) (draws : Draws) (s : State) (r : Request)
    (path : String)
    → writes_database route ≡ false
    → (dispatch route cfg env draws s r path).0.db ≡ s.db
unfolding dispatch writes_database
dispatch-reads options cfg env draws s r path h = refl
dispatch-reads health cfg env draws s r path h = refl
dispatch-reads metrics cfg env draws s r path h = refl
dispatch-reads authorize cfg env draws s r path h = handle_authorize-db cfg env draws s r
dispatch-reads login cfg env draws s r path h = handle_login-db cfg env draws s r
dispatch-reads token cfg env draws s r path h = token-db cfg env draws s r
dispatch-reads revoke cfg env draws s r path h = revoke-db cfg env draws s r
dispatch-reads introspect cfg env draws s r path h = refl
dispatch-reads device_code cfg env draws s r path h = device_code-db cfg env draws s r
dispatch-reads device_authorize cfg env draws s r path h = device_authorize-db cfg env draws s r
dispatch-reads userinfo cfg env draws s r path h = refl
dispatch-reads tokeninfo cfg env draws s r path h = refl
dispatch-reads signup cfg env draws s r path h = absurd (cc h)
dispatch-reads list_users cfg env draws s r path h = refl
dispatch-reads create_user cfg env draws s r path h = absurd (cc h)
dispatch-reads get_user_blocks cfg env draws s r path h = refl
dispatch-reads modify_user_blocks cfg env draws s r path h = absurd (cc h)
dispatch-reads get_user cfg env draws s r path h = refl
dispatch-reads delete_user cfg env draws s r path h = absurd (cc h)
dispatch-reads patch_user cfg env draws s r path h = absurd (cc h)
dispatch-reads modify_user_roles cfg env draws s r path h = absurd (cc h)
dispatch-reads jwks cfg env draws s r path h = refl
dispatch-reads openid_config cfg env draws s r path h = refl
dispatch-reads logout cfg env draws s r path h = logout-db cfg env draws s r
dispatch-reads universal_login cfg env draws s r path h =
    handle_universal_login-db cfg env draws s r
dispatch-reads login_callback cfg env draws s r path h = refl
dispatch-reads get_user_roles cfg env draws s r path h = refl
dispatch-reads get_user_permissions cfg env draws s r path h = refl
dispatch-reads list_roles cfg env draws s r path h = refl
dispatch-reads create_role cfg env draws s r path h = absurd (cc h)
dispatch-reads get_role cfg env draws s r path h = refl
dispatch-reads patch_role cfg env draws s r path h = absurd (cc h)
dispatch-reads delete_role cfg env draws s r path h = absurd (cc h)
dispatch-reads list_clients cfg env draws s r path h = refl
dispatch-reads get_client cfg env draws s r path h = refl
dispatch-reads patch_client cfg env draws s r path h = absurd (cc h)
dispatch-reads list_connections cfg env draws s r path h = refl
dispatch-reads get_connection cfg env draws s r path h = refl
dispatch-reads list_logs cfg env draws s r path h = refl
dispatch-reads not_found cfg env draws s r path h = refl

-- A GET request leaves the database as it was.
pub get_leaves_database :
    (cfg : Config) (env : Env) (draws : Draws) (s : State) (r : Request)
    → r.method ≡ "GET"
    → (serve_http cfg env draws s r).0.db ≡ s.db
unfolding serve_http
get_leaves_database cfg env draws s r got =
    dispatch-reads _ cfg env draws s r (trim_suffix r.path "/")
      (rw got (route-get (trim_suffix r.path "/")))
