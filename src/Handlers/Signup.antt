-- ===== src/Handlers/Signup.antt =====
-- handleSignup and toInt of internal/handlers/handlers.go.
pub mod Account
use Prim.Native.String
use fake_auth.Base.{
  ℤ, pos, String, Bool, ◌||◌, Option, none, some, List, [], ◌∷◌, ◌==◌, if◌then◌else◌, or_else,
}
use fake_auth.Text.{contains, or_text, local_part}
use fake_auth.Dict.{Dict, get}
use fake_auth.Json.{Value, int, float, str, as_string}
use fake_auth.Web.{Request, SignupBody}
use fake_auth.Audit.{log_signup}
use fake_auth.Database
use fake_auth.Database.{Db, create_user}
use fake_auth.Handlers.{Env, Draws, State, counted, logged, Response, engine_of, send_json, report}

-- A number of JSON is a float64; other values have no int.
unfoldable pub to_int : (String → ℤ) → Option Value → Option ℤ
to_int truncate (some (float x)) = some (truncate x)
to_int truncate (some (int n)) = some n
to_int truncate _ = none

abbrev member : Option (Dict Value) → String → Option Value
member none k = none
member (some m) k = get m k

-- The account that the body asks for: the metadata choose its role and its enterprise, and are not
-- stored.
unfoldable pub new_account : Env → Draws → SignupBody → Database.User
unfolding to_int local_part
new_account env draws b = record {
  id = String.◌++◌ "auth0|" (draws.uuid 0);
  email = b.email;
  password_hash = "";
  display_name = local_part b.email;
  app_metadata = none;
  user_metadata = none;
  organization_id = pos 1;
  enterprise_id =
      or_else (to_int env.library.truncate (member b.user_metadata "sign_up_enterprise_id"))
        (pos 1);
  role = or_else (as_string (member b.user_metadata "sign_up_role")) "user";
}

abbrev coded : String → String → List (String × Value)
coded code description = ("code", str code) ∷ ("description", str description) ∷ []

-- After CreateUser.
signed_up : Draws → State → Database.User → Db × Option String → State × Response
unfolding contains
signed_up draws s u (db, none) = (
  report (logged (log_signup (draws.clock 9) u.id u.email none))
      (report (counted "signups" []) (record s { db = db })),
  send_json 201 (("email", str u.email) ∷ ("_id", str u.id) ∷ []),
)
signed_up draws s u (db, some e) = (
  record s { db = db },
  if contains e "UNIQUE" || contains e "duplicate"
      then send_json 400 (coded "user_exists" "User already exists.")
      else send_json 500 (coded "signup_failed" e),
)

unfoldable pub signup : Env → Draws → State → Option SignupBody → State × Response
unfolding signed_up or_text
signup env draws s none = (s, send_json 400 (coded "invalid_body" "Invalid JSON"))
signup env draws s (some b) =
    if b.email == ""
    then (s, send_json 400 (coded "invalid_signup" "Email required"))
    else (let u = new_account env draws b in
        signed_up draws s u (
          create_user (engine_of env draws 0) env.bcrypt env.codec u
            (or_text b.password "password123") s.db))

unfoldable pub handle_signup : Env → Draws → State → Request → State × Response
handle_signup env draws s r = signup env draws s (env.library.decode_signup r.body)
