-- ===== src/Handlers.antt =====
-- internal/handlers/handlers.go: what the handlers share. A handler is a function from the server's
-- state and a request to the new state and the response; what it takes from the clock, from
-- github.com/google/uuid and from the database engine comes with the request, one value for each
-- use. Headers are left out of the responses.
pub mod Issuing
pub mod CodeExchange
pub mod Refresh
pub mod DeviceToken
pub mod Password
pub mod Endpoint
pub mod SignIn
pub mod Implicit
pub mod Authorize
pub mod Login
pub mod Logout
pub mod DeviceGrant
pub mod Signup
pub mod Profile
pub mod Api
pub mod Serve
use fake_auth.Base.{
  ℕ, ◌*◌, ℤ, pos, Char, String, Bool, true, Option, none, some, List, [], ◌∷◌, ◌++◌, positive_or,
  ◌==◌, if◌then◌else◌,
}
use fake_auth.Text.{trim_suffix}
use fake_auth.Dict.{Dict, put}
use fake_auth.Json.{Value, str}
use fake_auth.Token.{Jwt, Issuer}
use fake_auth.Database.{Db, Engine, Bcrypt, Codec, UserRow}
use fake_auth.Audit
use fake_auth.Web.{Library}
use fake_auth.Grants
use fake_auth.Sessions
use fake_auth.Clients.{Registry}
use fake_auth.Rules

-- net/url's URL, with the fields that the handlers use; `rest` is all that stands before the path.
pub record Url : Type 0 where
  pub rest : String
  pub path : String
  pub raw_query : String
  pub fragment : String
  pub raw_fragment : String

-- The libraries behind the handlers.
pub record Env : Type 0 where
  pub jwt : Jwt
  pub bcrypt : Bcrypt
  pub codec : Codec
  pub unique_error : String → String
  pub newest_first : List UserRow → List UserRow
  pub like : String → String → Bool
  -- unicode.ToUpper
  pub upper : Char → Char
  -- the base64url text of the SHA-256 digest
  pub s256 : String → String
  -- url.Parse, `none` for an error, and URL.String
  pub parse_url : String → Option Url
  pub url_string : Url → String
  pub library : Library

-- What one request draws from outside: readings of the clock, the texts of new UUIDs, the random
-- bytes of a session's id in hexadecimal, `none` where crypto/rand fails, the random numbers of a
-- user code, and the errors of the engine, by call of the store and by statement.
pub record Draws : Type 0 where
  pub clock : ℕ → ℕ
  pub uuid : ℕ → String
  pub session_hex : Option String
  pub digit : ℕ → ℕ
  pub fault : ℕ → ℕ → Option String

-- The fields of Handlers that no request changes; `none` is nil.
pub record Config : Type 0 where
  pub issuer : Issuer
  pub issuer_url : String
  pub rules_runner : Option Rules.Runner
  pub client_registry : Option Registry
  pub access_token_lifetime : ℤ
  pub id_token_lifetime : ℤ
  pub extra_access_token_claims : Option (Dict Value)

pub record ReplayEntry : Type 0 where
  pub body : String
  pub expires : ℕ

-- What a handler reports: a counter of internal/metrics with its labels, or an audit event.
pub data Event : Type 0 where
  counted : String → List String → Event
  logged : Audit.Event → Event

pub record State : Type 0 where
  pub db : Db
  pub grant_store : Option Grants.Store
  pub session_store : Option Sessions.Store
  pub code_replay_cache : Dict ReplayEntry
  pub events : List Event

pub data Body : Type 0 where
  -- sendJSON
  json : Dict Value → Body
  -- bytes written as they are
  bytes : String → Body
  nothing : Body
  -- sendJSON of a slice of objects; `none` is a nil slice, which is written as null
  json_list : Option (List (Dict Value)) → Body
  -- http.Error
  text : String → Body
  html : String → Body
  -- http.Redirect
  redirect : String → Body
  -- what promhttp writes
  prometheus : Body

pub record Response : Type 0 where
  pub status : ℕ
  pub body : Body

-- The session cookie that a response sets.
pub data Cookie : Type 0 where
  unchanged : Cookie
  set : String → Cookie
  cleared : Cookie

pub record Answer : Type 0 where
  pub response : Response
  pub cookie : Cookie

abbrev pub code_replay_ttl : ℕ
code_replay_ttl = 30 * 1000000000

-- accessTokenLifetime and idTokenLifetime
unfoldable pub access_lifetime : Config → ℕ
access_lifetime cfg = positive_or cfg.access_token_lifetime 86400

unfoldable pub id_lifetime : Config → ℕ
id_lifetime cfg = positive_or cfg.id_token_lifetime 86400

abbrev pub engine_of : Env → Draws → ℕ → Engine
engine_of env draws n = record {
  fault = draws.fault n;
  unique_error = env.unique_error;
  newest_first = env.newest_first;
  like = env.like;
}

abbrev pub send_json : ℕ → Dict Value → Response
send_json status m = record { status = status; body = json m }

abbrev pub error_json : ℕ → String → Response
error_json status error = send_json status (("error", str error) ∷ [])

abbrev pub described : ℕ → String → String → Response
described status error description =
    send_json status (("error", str error) ∷ ("error_description", str description) ∷ [])

abbrev pub report : Event → State → State
report e s = record s { events = s.events ++ e ∷ [] }

abbrev pub plain_text : ℕ → String → Response
plain_text status message = record { status = status; body = text message }

abbrev pub page : ℕ → String → Response
page status source = record { status = status; body = html source }

abbrev pub found_at : String → Response
found_at url = record { status = 302; body = redirect url }

-- A response that sets no cookie.
abbrev pub answer : Response → Answer
answer r = record { response = r; cookie = unchanged }

abbrev pub plainly : State × Response → State × Answer
plainly (s, r) = (s, answer r)

-- issuerURL
unfoldable pub base_url : Config → String
unfolding trim_suffix
base_url cfg =
    if cfg.issuer_url == "" then "https://fake-auth.example.com" else trim_suffix cfg.issuer_url "/"
