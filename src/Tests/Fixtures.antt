-- ===== src/Tests/Fixtures.antt =====
-- The libraries, the configuration and the states that the tests run on.
use Prim.Native.String
use fake_auth.Base.{ℕ, String, Char, true, false, Option, none, some, [], ◌∷◌, pos, ◌==◌}
use fake_auth.Dict.{get}
use fake_auth.Json.{Value, str}
use fake_auth.Token.{Jwt, Issuer, parsed}
use fake_auth.Database.{Db, Engine, Bcrypt, Codec, UserRow, User}
use fake_auth.Clients.{Registry, ClientConfig}
use fake_auth.Web.{Library, value_of}
use fake_auth.Grants
use fake_auth.Grants.{AuthCode, RefreshGrant, DeviceCode}
use fake_auth.Sessions
use fake_auth.Handlers.{Url, Env, Draws, Config, State}
use fake_auth.Handlers.CodeExchange.{Exchange}
use fake_auth.Handlers.Password.{Login}

abbrev pub text_of : Option Value → Option String
text_of (some (str s)) = some s
text_of _ = none

-- A token is the name of its issuer.
abbrev pub jwt : Jwt
jwt = record {
  sign = λ kid claims. text_of (get claims "iss");
  parse = λ now token. parsed (("iss", str token) ∷ []) true;
  left_half_hash = λ s. String.◌++◌ "half-" s;
  modulus = "n";
  exponent = "AQAB";
}

abbrev pub issuer : Issuer
issuer = record { issuer = "https://auth.test/"; kid = "k1" }

abbrev pub issuer_token : String
issuer_token = "https://auth.test"

-- A hash is the password with a prefix.
abbrev pub bcrypt : Bcrypt
bcrypt = record {
  generate = λ p. some (String.◌++◌ "h-" p);
  hash_error = "too long";
  compare_hash = λ h p. h == String.◌++◌ "h-" p;
}

abbrev pub codec : Codec
codec = record { marshal = λ m. "{}"; unmarshal = λ s. some (some []) }

abbrev pub engine : Engine
engine = record {
  fault = λ n. none;
  unique_error = λ c. String.◌++◌ "UNIQUE constraint failed: " c;
  newest_first = λ rows. rows;
  like = λ value pattern. String.◌++◌ "%" (String.◌++◌ value "%") == pattern;
}

abbrev pub library : Library
library = record {
  parse_query = λ s. [];
  encode = λ v. value_of v "code";
  query_escape = λ s. s;
  html_escape = λ s. s;
  itoa = λ n. "86400";
  atoi = λ s. pos 0;
  trim_space = λ s. s;
  space = λ c. false;
  truncate = λ s. pos 0;
  decode_signup = λ s. none;
  decode_user = λ s. none;
  decode_role = λ s. none;
}

abbrev pub env : Env
env = record {
  jwt = jwt;
  bcrypt = bcrypt;
  codec = codec;
  unique_error = λ c. c;
  newest_first = λ rows. rows;
  like = λ value pattern. value == pattern;
  upper = λ c. c;
  s256 = λ v. String.◌++◌ "s256-" v;
  parse_url = λ u. none;
  url_string = λ (u : Url). u.path;
  library = library;
}

abbrev pub same_char : Char → Char
same_char c = c

abbrev pub app : ClientConfig
app = record {
  client_secret = "s3cret";
  redirect_uris = "https://app.test/cb" ∷ [];
  allowed_scopes = "openid" ∷ "email" ∷ [];
}

abbrev pub registry : Registry
registry = record { clients = ("app", some app) ∷ []; require_secret_for_codes = true }

abbrev pub sessions : Sessions.Store
sessions = record { sessions = []; ttl = 40 }

abbrev pub config : Config
config = record {
  issuer = issuer;
  issuer_url = "https://auth.test/";
  rules_runner = none;
  client_registry = some registry;
  access_token_lifetime = pos 0;
  id_token_lifetime = pos 0;
  extra_access_token_claims = none;
}

abbrev pub ann_row : UserRow
ann_row = record {
  id = "u1";
  email = "ann@test";
  password_hash = "h-pw";
  display_name = "Ann A";
  organization_id = pos 1;
  enterprise_id = pos 1;
  role = some "user";
  app_metadata = some "{}";
  user_metadata = none;
}

abbrev pub ann : User
ann = record {
  id = "u1";
  email = "ann@test";
  password_hash = "h-pw";
  display_name = "Ann A";
  app_metadata = none;
  user_metadata = none;
  organization_id = pos 1;
  enterprise_id = pos 1;
  role = "user";
}

abbrev pub empty_db : Db
empty_db = record {
  users = [];
  roles = [];
  permissions = [];
  user_roles = [];
  role_permissions = [];
  user_blocks = [];
  clients = [];
  connections = [];
  audit_logs = [];
  last_log = 0;
}

abbrev pub db : Db
db = record empty_db { users = ann_row ∷ []; user_roles = ("u1", "rol_default") ∷ [] }

abbrev pub code_grant : AuthCode
code_grant = record {
  user_id = "u1";
  client_id = "app";
  redirect_uri = "https://app.test/cb";
  scope = "openid offline_access";
  audience = "";
  nonce = "n";
  session_id = "";
  code_challenge = "s256-verifier";
  code_challenge_method = "S256";
  expires_at = 100;
}

abbrev pub refresh_grant : RefreshGrant
refresh_grant = record {
  user_id = "u1";
  client_id = "app";
  scope = "openid offline_access";
  audience = "";
  session_id = "sid_1";
  expires_at = 100;
}

abbrev pub device : DeviceCode
device = record {
  device_code = "dc_1";
  user_code = "ABCD-EFGH";
  user_id = "";
  client_id = "tv";
  scope = "openid";
  audience = "";
  expires_at = 0;
  interval = 0;
  user_authorized = false;
  access_denied = false;
  expired = false;
}

abbrev pub ready : DeviceCode
ready = record device { user_id = "u1"; expires_at = 100; user_authorized = true }

abbrev pub grants : Grants.Store
grants = record {
  codes = ("c1", code_grant) ∷ [];
  refresh = ("rt_1", refresh_grant) ∷ [];
  devices = ("dc_1", ready) ∷ [];
  user_codes = ("ABCDEFGH", "dc_1") ∷ [];
  code_ttl = 50;
  refresh_ttl = 70;
  device_ttl = 90;
}

abbrev pub state : State
state = record {
  db = db;
  grant_store = some grants;
  session_store = none;
  code_replay_cache = [];
  events = [];
}

-- A request at time `t`, whose new tokens carry `id`.
abbrev pub draws_at : ℕ → String → Draws
draws_at t id = record {
  clock = λ n. t;
  uuid = λ n. id;
  session_hex = some "00ff";
  digit = λ n. n;
  fault = λ n m. none;
}

abbrev pub exchange : Exchange
exchange = record {
  code = "c1";
  redirect_uri = "https://app.test/cb";
  client_id = "app";
  client_secret = "s3cret";
  code_verifier = "verifier";
}

abbrev pub login : Login
login = record {
  username = "ann@test";
  password = "pw";
  client_id = "app";
  scope = "openid";
  audience = "";
}
