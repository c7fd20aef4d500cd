-- ===== src/Handlers/SignIn.antt =====
-- What handleAuthorize, handleImplicitAuthorize, handleLogin and handleDeviceAuthorize of
-- internal/handlers/handlers.go have in common: the password, the session, the code, and the
-- redirects.
pub mod Proof
pub mod Opening
pub mod Redirect
use Prim.Native.String
use fake_auth.Base.{
  ℕ, pos, String, Bool, true, false, not, ◌&&◌, ◌||◌, Option, none, some, List, [], ◌∷◌, ◌++◌,
  or_else, ◌==◌, if◌then◌else◌,
}
use fake_auth.Text.{contains, or_text, trim_suffix, concat, join}
use fake_auth.Dict.{get, put}
use fake_auth.Json.{Value}
use fake_auth.Token.{IdTokenOptions, issue, issue_id_token}
use fake_auth.Web.{Values, set_value}
use fake_auth.Database
use fake_auth.Database.{Db, Fetched, found, missing, broken, get_by_email, verify_password}
use fake_auth.Grants
use fake_auth.Grants.{AuthCode, save_code}
use fake_auth.Sessions
use fake_auth.Handlers.{
  Url, Env, Draws, Config, State, Response, Cookie, unchanged, set, Answer, found_at,
  access_lifetime, id_lifetime, engine_of, base_url,
}
use fake_auth.Handlers.Issuing.{merge_claims, rule_user, shown_name}

-- The parameters that the handlers read.
pub record Parameters : Type 0 where
  pub response_type : String
  pub client_id : String
  pub redirect_uri : String
  pub scope : String
  pub state : String
  pub username : String
  pub password : String
  pub prompt : String
  pub login_hint : String
  pub nonce : String
  pub audience : String
  pub code_challenge : String
  pub code_challenge_method : String

-- `err != nil || u == nil || !VerifyPassword(…)` is `none`.
unfoldable pub verified : Env → String → Fetched Database.User → Option Database.User
verified env password missing = none
verified env password (broken e) = none
verified env password (found u) =
    if verify_password env.bcrypt u.password_hash password then some u else none

unfoldable pub password_holder : Env → Draws → Db → String → String → Option Database.User
unfolding verified
password_holder env draws db username password =
    verified env password (get_by_email (engine_of env draws 0) env.codec db username)

-- The session of a user who has signed in, and its cookie.
unfoldable pub open_session :
    Draws → Database.User → Option Sessions.Store → Option Sessions.Store × Cookie
open_session draws u none = (none, unchanged)
open_session draws u (some ss) =
    let made = Sessions.create draws.session_hex (draws.clock 0) (draws.clock 1) u.id u.email ss in
    elim made.1 [ none ↦ (some made.0, unchanged) | some sid ↦ (some made.0, set sid) ]

abbrev pub new_code : Draws → String
new_code draws = String.◌++◌ "ac_" (draws.uuid 0)

-- The code's contents; SaveCode sets the expiry.
unfoldable pub code_for : Draws → Parameters → Database.User → AuthCode
code_for draws p u = record {
  user_id = u.id;
  client_id = p.client_id;
  redirect_uri = p.redirect_uri;
  scope = p.scope;
  audience = p.audience;
  nonce = p.nonce;
  session_id = String.◌++◌ "sid_" (draws.uuid 1);
  code_challenge = p.code_challenge;
  code_challenge_method = p.code_challenge_method;
  expires_at = 0;
}

unfoldable pub offer : Draws → Parameters → Database.User → Grants.Store → Grants.Store
unfolding code_for
offer draws p u g =
    save_code (draws.clock 2) (draws.clock 3) (new_code draws) (code_for draws p u) g

-- if state != "" { q.Set("state", state) }
abbrev pub set_state : String → Values → Values
set_state state q = if state == "" then q else set_value q "state" state

set_all : List (String × String) → Values → Values
set_all [] q = q
set_all ((k, v) ∷ more) q = set_all more (set_value q k v)

-- The query of the redirect URI with more values; q := redirectURL.Query().
unfoldable pub query_with : Env → Url → List (String × String) → String → Values
unfolding set_all
query_with env u more state = set_state state (set_all more (env.library.parse_query u.raw_query))

-- redirectURL.RawQuery = q.Encode(); redirectURL.String()
unfoldable pub url_with : Env → Url → Values → String
url_with env u q = env.url_string (record u { raw_query = env.library.encode q })

unfoldable pub with_code : Env → Draws → Url → Parameters → Response
unfolding query_with url_with
with_code env draws u p =
    found_at (url_with env u (query_with env u (("code", new_code draws) ∷ []) p.state))

-- The audience of the implicit flow.
unfoldable pub audience_of : Parameters → String
unfolding or_text
audience_of p = or_text (or_text p.audience p.client_id) "https://api.example.com"

-- The access token's part of the fragment, where it is wanted; `none` is an error.
access_part : Config → Env → ℕ → Parameters → Database.User → Bool → Option (List String)
unfolding audience_of merge_claims rule_user access_lifetime concat
access_part cfg env now p u false = some []
access_part cfg env now p u true =
    elim (issue env.jwt cfg.issuer now u.id (audience_of p) p.client_id (pos (access_lifetime cfg))
      (merge_claims (rule_user cfg u p.client_id).access_token_claims
        cfg.extra_access_token_claims)) [
          | none ↦ none
          | some token ↦ some (
              concat ("access_token=" ∷ env.library.query_escape token ∷ [])
              ∷ "token_type=Bearer"
              ∷ concat ("expires_in=" ∷ env.library.itoa (access_lifetime cfg) ∷ [])
              ∷ [])
        ]

id_options : Config → Parameters → Database.User → IdTokenOptions
id_options cfg p u = record {
  nonce = "";
  amr = "pwd" ∷ [];
  access_token = "";
  auth_code = "";
  session_id = "";
  custom_claims = or_else (rule_user cfg u p.client_id).id_token_claims [];
}

id_part : Config → Env → ℕ → Parameters → Database.User → Bool → Option (List String)
unfolding audience_of rule_user shown_name id_lifetime concat id_options
id_part cfg env now p u false = some []
id_part cfg env now p u true =
    let ru = rule_user cfg u p.client_id in
    elim (issue_id_token env.jwt cfg.issuer now u.id (audience_of p) p.client_id
      (pos (id_lifetime cfg)) p.scope ru.email (shown_name ru) "" (some (id_options cfg p u))) [
        | none ↦ none
        | some token ↦ some (concat ("id_token=" ∷ env.library.query_escape token ∷ []) ∷ [])
      ]

-- The URL without its query, and the fragment.
fragment_url : Env → Url → Parameters → List String → String
unfolding concat join trim_suffix
fragment_url env u p parts =
    let dest = env.url_string u in
    let stated =
      if p.state == ""
      then parts
      else parts ++ concat ("state=" ∷ env.library.query_escape p.state ∷ []) ∷ [] in
    concat (
      (if u.raw_query == "" then dest else trim_suffix dest (concat ("?" ∷ u.raw_query ∷ [])))
      ∷ "#"
      ∷ join "&" stated
      ∷ [])

-- The tokens of the implicit flow in the fragment of the redirect URI; `none` is an error of one of
-- them. The ID token is not issued after an error of the access token.
unfoldable pub with_tokens :
    Config → Env → Draws → Url → Parameters → Database.User → Bool → Bool → Option Response
unfolding access_part id_part fragment_url
with_tokens cfg env draws url p u want_token want_id_token =
    elim (access_part cfg env (draws.clock 7) p u want_token) [
      | none ↦ none
      | some access ↦ elim (id_part cfg env (draws.clock 8) p u want_id_token) [
        | none ↦ none
        | some id ↦ some (found_at (fragment_url env url p (access ++ id)))
      ]
    ]

-- The beginning of the URL of the login page.
unfoldable pub login_url : Config → Env → String → String → String → List String → String
unfolding base_url concat
login_url cfg env client_id redirect_uri scope more = concat (
    base_url cfg
    ∷ "/login?client_id="
    ∷ env.library.query_escape client_id
    ∷ "&redirect_uri="
    ∷ env.library.query_escape redirect_uri
    ∷ "&scope="
    ∷ env.library.query_escape scope
    ∷ more)
