-- ===== src/Handlers/Implicit.antt =====
-- handleImplicitAuthorize of internal/handlers/handlers.go: tokens in the redirect's fragment.
use fake_auth.Base.{
  String, Bool, true, not, ◌&&◌, ◌||◌, Option, none, some, [], ◌∷◌, or_else, ◌==◌, if◌then◌else◌,
}
use fake_auth.Text.{contains, concat}
use fake_auth.Database
use fake_auth.Handlers.{Url, Env, Draws, Config, State, Response, found_at, error_json}
use fake_auth.Handlers.SignIn.{
  Parameters, password_holder, query_with, url_with, with_tokens, login_url,
}

-- To the login page.
to_login : Config → Env → Parameters → Response
unfolding login_url
to_login cfg env p =
    let more =
      if p.audience == "" then [] else "&audience=" ∷ env.library.query_escape p.audience ∷ [] in
    found_at (
      login_url cfg env p.client_id p.redirect_uri p.scope (
        "&state="
        ∷ env.library.query_escape p.state
        ∷ "&response_type="
        ∷ env.library.query_escape p.response_type
        ∷ more))

-- The answer to wrong credentials.
denied : Env → Url → Parameters → Response
unfolding query_with url_with concat
denied env url p =
    let q =
      query_with env url
        (("error", "access_denied") ∷ ("error_description", "invalid_credentials") ∷ []) p.state in
    found_at (concat (url_with env url q ∷ "#" ∷ env.library.encode q ∷ []))

-- wantToken; a request for neither kind of token is one for an access token.
unfoldable pub wants_token : String → Bool
wants_token response_type =
    let token = contains response_type "token" || response_type == "token" in
    let id_token = contains response_type "id_token" || response_type == "id_token" in
    if not token && not id_token then true else token

unfoldable pub wants_id_token : String → Bool
wants_id_token response_type = contains response_type "id_token" || response_type == "id_token"

unfoldable pub granted : Config → Env → Draws → Url → Parameters → Option Database.User → Response
unfolding denied with_tokens wants_token wants_id_token
granted cfg env draws url p none = denied env url p
granted cfg env draws url p (some u) =
    or_else
      (with_tokens cfg env draws url p u (wants_token p.response_type)
        (wants_id_token p.response_type))
      (error_json 500 "server_error")

-- The state stays as it is.
unfoldable pub handle_implicit_authorize :
    Config → Env → Draws → State → Url → Parameters → Response
unfolding granted to_login
handle_implicit_authorize cfg env draws s url p =
    if p.username == "" || p.password == ""
    then to_login cfg env p
    else granted cfg env draws url p (password_holder env draws s.db p.username p.password)
