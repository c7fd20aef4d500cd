-- ===== src/Handlers/Logout.antt =====
-- handleLogout and handleLoginCallback of internal/handlers/handlers.go.
pub mod Ends
use fake_auth.Base.{
  String, Bool, not, ◌&&◌, ◌||◌, Option, none, some, List, [], ◌∷◌, ◌==◌, if◌then◌else◌,
}
use fake_auth.Text.{or_text}
use fake_auth.Web.{Request, query_value}
use fake_auth.Sessions
use fake_auth.Sessions.{revoke}
use fake_auth.Handlers.{
  Url, Env, Config, State, Response, Cookie, unchanged, cleared, Answer, found_at, page, plain_text,
}
use fake_auth.Handlers.SignIn.{query_with, url_with, login_url}

-- The cookie's session, if there is one, is revoked.
close_session : Option String → Sessions.Store → Sessions.Store
unfolding revoke
close_session none ss = ss
close_session (some c) ss = if c == "" then ss else revoke c ss

-- Where the browser goes.
goodbye : Env → String → String → Response
unfolding query_with url_with
goodbye env return_to state =
    let bye =
      page 200 "<!DOCTYPE html><html><body><p>You have been logged out.</p></body></html>" in
    if return_to == "" then bye else elim (env.parse_url return_to) [
      | none ↦ bye
      | some dest ↦ found_at (url_with env dest (query_with env dest [] state))
    ]

unfoldable pub handle_logout : Env → State → Request → State × Answer
unfolding close_session goodbye query_value or_text
handle_logout env s r =
    let return_to = or_text (query_value r "returnTo") (query_value r "post_logout_redirect_uri") in
    let response = goodbye env return_to (query_value r "state") in
    elim s.session_store [
      | none ↦ (s, record { response = response; cookie = unchanged })
      | some ss ↦ (
        record s { session_store = some (close_session r.cookie ss) },
        record { response = response; cookie = cleared },
      )
    ]

unfoldable pub handle_login_callback : Config → Env → Request → Response
unfolding query_value or_text login_url
handle_login_callback cfg env r =
    let state = query_value r "state" in
    let redirect_uri = query_value r "redirect_uri" in
    let client_id = query_value r "client_id" in
    if state == ""
    then plain_text 400 "state required"
    else if not (redirect_uri == "") && not (client_id == "")
    then found_at (
        login_url cfg env client_id redirect_uri (or_text (query_value r "scope") "openid")
          ("&state=" ∷ env.library.query_escape state ∷ []))
    else plain_text 400 "redirect_uri and client_id required"
