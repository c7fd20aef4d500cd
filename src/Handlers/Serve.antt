-- ===== src/Handlers/Serve.antt =====
-- ServeHTTP, handleHealth and handleMetrics of internal/handlers/handlers.go: which handler a
-- request gets, and what a sequence of requests does.
pub mod Keeps
use fake_auth.Base.{
  String, Bool, not, ◌&&◌, ◌||◌, Option, none, some, List, [], ◌∷◌, ◌==◌, if◌then◌else◌,
}
use fake_auth.Text.{contains, has_prefix, has_suffix, trim_suffix}
use fake_auth.Json.{str}
use fake_auth.Web.{Request}
use fake_auth.Handlers.{
  Env, Draws, Config, State, Response, Body, nothing, prometheus, Answer, answer, send_json,
  plain_text,
}
use fake_auth.Handlers.Endpoint.{handle_token, handle_revoke, handle_introspect}
use fake_auth.Handlers.Authorize.{handle_authorize}
use fake_auth.Handlers.Login.{handle_login, handle_universal_login}
use fake_auth.Handlers.Logout.{handle_logout, handle_login_callback}
use fake_auth.Handlers.DeviceGrant.{handle_device_code_request, handle_device_authorize}
use fake_auth.Handlers.Signup.{handle_signup}
use fake_auth.Handlers.Profile.{
  handle_userinfo, handle_tokeninfo, handle_openid_config, handle_jwks,
}
use fake_auth.Handlers.Api.{no_content}
use fake_auth.Handlers.Api.Users.{
  handle_get_user, handle_list_users, handle_create_user_mgmt, handle_delete_user,
  handle_patch_user, handle_get_user_blocks, handle_user_blocks_modify,
}
use fake_auth.Handlers.Api.Roles.{
  handle_get_user_roles, handle_get_user_permissions, handle_list_roles, handle_user_roles_modify,
  handle_create_role, handle_get_role, handle_patch_role, handle_delete_role,
}
use fake_auth.Handlers.Api.Clients.{
  handle_list_clients, handle_get_client, handle_patch_client, handle_list_connections,
  handle_get_connection, handle_list_logs,
}

-- The handlers, in the order of the cases.
pub data Route : Type 0 where
  options : Route
  health : Route
  metrics : Route
  authorize : Route
  login : Route
  token : Route
  revoke : Route
  introspect : Route
  device_code : Route
  device_authorize : Route
  userinfo : Route
  tokeninfo : Route
  signup : Route
  list_users : Route
  create_user : Route
  get_user_blocks : Route
  modify_user_blocks : Route
  get_user : Route
  delete_user : Route
  patch_user : Route
  modify_user_roles : Route
  jwks : Route
  openid_config : Route
  logout : Route
  universal_login : Route
  login_callback : Route
  get_user_roles : Route
  get_user_permissions : Route
  list_roles : Route
  create_role : Route
  get_role : Route
  patch_role : Route
  delete_role : Route
  list_clients : Route
  get_client : Route
  patch_client : Route
  list_connections : Route
  get_connection : Route
  list_logs : Route
  not_found : Route

-- A path of one user that names none of the three collections.
lone_user : String → Bool
unfolding has_prefix contains
lone_user path =
    has_prefix path "/api/v2/users/"
    && not (contains path "/roles")
    && not (contains path "/permissions")
    && not (contains path "/blocks")

-- A path under the users with the suffix.
of_user : String → String → Bool
unfolding has_prefix has_suffix
of_user path suffix = has_prefix path "/api/v2/users/" && has_suffix path suffix

-- The cases of the switch from the roles on.
route_api : String → String → Route
unfolding has_prefix has_suffix of_user
route_api method path =
    let get = method == "GET" in
    let post = method == "POST" in
    let patch = method == "PATCH" in
    if get && of_user path "/roles"
    then get_user_roles
    else if get && of_user path "/permissions"
    then get_user_permissions
    else if get && path == "/api/v2/roles"
    then list_roles
    else if post && path == "/api/v2/roles"
    then create_role
    else if get && has_prefix path "/api/v2/roles/"
    then get_role
    else if patch && has_prefix path "/api/v2/roles/"
    then patch_role
    else if method == "DELETE" && has_prefix path "/api/v2/roles/"
    then delete_role
    else if get && path == "/api/v2/clients"
    then list_clients
    else if get && has_prefix path "/api/v2/clients/"
    then get_client
    else if patch && has_prefix path "/api/v2/clients/"
    then patch_client
    else if get && path == "/api/v2/connections"
    then list_connections
    else if get && has_prefix path "/api/v2/connections/"
    then get_connection
    else if get && path == "/api/v2/logs"
    then list_logs
    else not_found

-- The cases from the users on.
route_users : String → String → Route
unfolding route_api has_prefix has_suffix contains lone_user of_user
route_users method path =
    let get = method == "GET" in
    let post = method == "POST" in
    let delete = method == "DELETE" in
    if get && path == "/api/v2/users"
    then list_users
    else if post && path == "/api/v2/users"
    then create_user
    else if get && of_user path "/blocks"
    then get_user_blocks
    else if (post || delete) && of_user path "/blocks"
    then modify_user_blocks
    else if get && lone_user path
    then get_user
    else if delete && lone_user path
    then delete_user
    else if method == "PATCH" && has_prefix path "/api/v2/users/" && not (contains path "/roles")
    then patch_user
    else if (delete || post)
        && contains path "/api/v2/users/"
        && has_suffix path "/roles"
        && not get
    then modify_user_roles
    else if get && path == "/.well-known/jwks.json"
    then jwks
    else if get && path == "/.well-known/openid-configuration"
    then openid_config
    else if get && path == "/v2/logout"
    then logout
    else if (get || post) && (path == "/u/login" || path == "/usernamepassword/login")
    then universal_login
    else if get && path == "/login/callback"
    then login_callback
    else route_api method path

-- The switch, on the path without its trailing slash.
unfoldable pub route : String → String → Route
unfolding route_users
route method path =
    let get = method == "GET" in
    let post = method == "POST" in
    if method == "OPTIONS"
    then options
    else if get && path == "/health"
    then health
    else if get && path == "/metrics"
    then metrics
    else if get && path == "/authorize"
    then authorize
    else if (get || post) && path == "/login"
    then login
    else if post && path == "/oauth/token"
    then token
    else if post && path == "/oauth/revoke"
    then revoke
    else if post && path == "/oauth/introspect"
    then introspect
    else if post && path == "/oauth/device/code"
    then device_code
    else if (get || post) && path == "/oauth/device/authorize"
    then device_authorize
    else if get && path == "/userinfo"
    then userinfo
    else if post && path == "/tokeninfo"
    then tokeninfo
    else if post && path == "/dbconnections/signup"
    then signup
    else route_users method path

-- What a handler returns, as the server's result; `none` is a panic, after which net/http drops the
-- connection and goes on.
abbrev pub Result : Type 0
Result = State × Option Answer

abbrev pub reads : State → Response → Result
reads s r = (s, some (answer r))

abbrev pub writes : State × Response → Result
writes (s, r) = (s, some (answer r))

abbrev pub may_panic : Option Response → Option Answer
may_panic none = none
may_panic (some r) = some (answer r)

abbrev pub sets_cookie : State × Answer → Result
sets_cookie (s, a) = (s, some a)

abbrev pub may_fail : State × Option Response → Result
may_fail (s, o) = (s, may_panic o)

unfoldable pub dispatch : Route → Config → Env → Draws → State → Request → String → Result
dispatch options cfg env draws s r path = reads s no_content
dispatch health cfg env draws s r path = reads s (send_json 200 (("status", str "ok") ∷ []))
dispatch metrics cfg env draws s r path = reads s (record { status = 200; body = prometheus })
dispatch authorize cfg env draws s r path = sets_cookie (handle_authorize cfg env draws s r)
dispatch login cfg env draws s r path = handle_login cfg env draws s r
dispatch token cfg env draws s r path = writes (handle_token cfg env draws s r)
dispatch revoke cfg env draws s r path = writes (handle_revoke s r)
dispatch introspect cfg env draws s r path = reads s (handle_introspect cfg env draws r)
dispatch device_code cfg env draws s r path = writes (handle_device_code_request cfg env draws s r)
dispatch device_authorize cfg env draws s r path = writes (handle_device_authorize env draws s r)
dispatch userinfo cfg env draws s r path = reads s (handle_userinfo cfg env draws s r)
dispatch tokeninfo cfg env draws s r path = reads s (handle_tokeninfo cfg env draws s r)
dispatch signup cfg env draws s r path = writes (handle_signup env draws s r)
dispatch list_users cfg env draws s r path = reads s (handle_list_users env draws s r)
dispatch create_user cfg env draws s r path = writes (handle_create_user_mgmt env draws s r)
dispatch get_user_blocks cfg env draws s r path = reads s (handle_get_user_blocks env draws s path)
dispatch modify_user_blocks cfg env draws s r path =
    writes (handle_user_blocks_modify env draws s r path)
dispatch get_user cfg env draws s r path = reads s (handle_get_user env draws s path)
dispatch delete_user cfg env draws s r path = writes (handle_delete_user env draws s path)
dispatch patch_user cfg env draws s r path = may_fail (handle_patch_user env draws s r)
dispatch modify_user_roles cfg env draws s r path =
    may_fail (handle_user_roles_modify env draws s r path)
dispatch jwks cfg env draws s r path = reads s (handle_jwks cfg env)
dispatch openid_config cfg env draws s r path = reads s (handle_openid_config cfg)
dispatch logout cfg env draws s r path = sets_cookie (handle_logout env s r)
dispatch universal_login cfg env draws s r path = handle_universal_login cfg env draws s r
dispatch login_callback cfg env draws s r path = reads s (handle_login_callback cfg env r)
dispatch get_user_roles cfg env draws s r path =
    (s, may_panic (handle_get_user_roles env draws s path))
dispatch get_user_permissions cfg env draws s r path =
    (s, may_panic (handle_get_user_permissions env draws s path))
dispatch list_roles cfg env draws s r path = reads s (handle_list_roles env draws s)
dispatch create_role cfg env draws s r path = writes (handle_create_role env draws s r)
dispatch get_role cfg env draws s r path = reads s (handle_get_role env draws s path)
dispatch patch_role cfg env draws s r path = writes (handle_patch_role env draws s r path)
dispatch delete_role cfg env draws s r path = writes (handle_delete_role env draws s path)
dispatch list_clients cfg env draws s r path = reads s (handle_list_clients env draws s)
dispatch get_client cfg env draws s r path = reads s (handle_get_client env draws s path)
dispatch patch_client cfg env draws s r path = may_fail (handle_patch_client env draws s r path)
dispatch list_connections cfg env draws s r path = reads s (handle_list_connections env draws s)
dispatch get_connection cfg env draws s r path = reads s (handle_get_connection env draws s path)
dispatch list_logs cfg env draws s r path = reads s (handle_list_logs env draws s r)
dispatch not_found cfg env draws s r path = reads s (plain_text 404 "404 page not found")

unfoldable pub serve_http : Config → Env → Draws → State → Request → Result
unfolding route dispatch
serve_http cfg env draws s r =
    let path = trim_suffix r.path "/" in dispatch (route r.method path) cfg env draws s r path
