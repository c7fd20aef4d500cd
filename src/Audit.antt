-- ===== src/Audit.antt =====
-- internal/audit/audit.go: the events of the audit log. `Log` writes an event as a line of JSON; the
-- handlers record the event itself.
use fake_auth.Base.{ℕ, String, Bool, true, false, Option, none, some, [], ◌∷◌, or_else}
use fake_auth.Dict.{Dict}
use fake_auth.Dict.Range.{copy}
use fake_auth.Json.{Value, str}

pub record Event : Type 0 where
  pub time : ℕ
  pub kind : String
  pub user_id : String
  pub email : String
  pub client_id : String
  pub success : Bool
  pub details : Option (Dict Value)
  pub ip : String
  pub user_agent : String

-- An event with nothing but its type.
abbrev blank : String → Event
blank kind = record {
  time = 0;
  kind = kind;
  user_id = "";
  email = "";
  client_id = "";
  success = false;
  details = none;
  ip = "";
  user_agent = "";
}

-- evt.Time = time.Now(); what is written is the result.
unfoldable pub log : ℕ → Event → Event
log now e = record e { time = now }

unfoldable pub merge_map : Option (Dict Value) → Dict Value → Dict Value
unfolding copy
merge_map a b = copy b (copy (or_else a []) [])

unfoldable pub log_login : ℕ → String → String → String → Bool → Option (Dict Value) → Event
unfolding log
log_login now user_id email client_id success details = log now (record (blank "login") {
  user_id = user_id;
  email = email;
  client_id = client_id;
  success = success;
  details = details;
})

unfoldable pub log_signup : ℕ → String → String → Option (Dict Value) → Event
unfolding log
log_signup now user_id email details = log now (record (blank "signup") {
  user_id = user_id;
  email = email;
  success = true;
  details = details;
})

unfoldable pub log_token : ℕ → String → String → String → Bool → Option (Dict Value) → Event
unfolding log merge_map
log_token now grant_type user_id client_id success details = log now (record (blank "token") {
  user_id = user_id;
  client_id = client_id;
  success = success;
  details = some (merge_map details (("grant_type", str grant_type) ∷ []));
})

unfoldable pub log_user_change : ℕ → String → String → Bool → Option (Dict Value) → Event
unfolding log merge_map
log_user_change now action user_id success details = log now (record (blank "user_change") {
  user_id = user_id;
  success = success;
  details = some (merge_map details (("action", str action) ∷ []));
})
